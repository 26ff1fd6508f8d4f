-- ===== src/Dispatch/Batch.antt =====
-- dp/core/syscall.c: which calls of a batch are made, and when the batched writes go out.
use ix.Base.{ℕ, true, false, not, List, [], ◌∷◌, ◌++◌, ◌≡◌, ◌==◌, if◌then◌else◌}
use Prim.Native.Nat.{compare, Ordering}
use ix.Dispatch.{Desc, Result, Table, answered, dispatch_loop, efault}

-- every descriptor can be read and written
unfoldable pub AllClean : List Desc → Type 0
AllClean [] = Unit
AllClean (d ∷ ds) = (d.read_faults ≡ false) × (d.write_faults ≡ false) × AllClean ds

-- the batch is at its end, or at a descriptor that cannot be read
unfoldable pub StopsAt : List Desc → Type 0
StopsAt [] = Unit
StopsAt (d ∷ ds) = d.read_faults ≡ true

-- the result of the loop on what stands behind some calls
abbrev error_at : List Desc → ℕ
error_at [] = 0
error_at (d ∷ post) = efault

module _ {S : Type 0} (bsys_tbl : Table S) (cookie : S → ℕ) where
  -- What a descriptor asks for: the call of its number if the kernel knows it, and else `-ENOSYS`,
  -- 78, as a 64-bit word, with nothing changed.
  unfoldable pub respond : Desc → S → Result S
  respond d s = elim (compare d.sysnr 13) [
    | Ordering.lt ↦ bsys_tbl d.sysnr d s
    | _ ↦ record { ret = 18446744073709551538; cookie = cookie s; state = s }
  ]

  -- the calls of some descriptors one after the other, with their answers
  unfoldable pub run : List Desc → S → List Desc × S
  run [] s = ([], s)
  run (d ∷ ds) s =
      let r = respond d s in let rest = run ds r.state in (answered d r ∷ rest.0, rest.1)

  abbrev step : Desc → List Desc → ℕ × Desc × S → ℕ × List Desc × S
  step d ds r =
      let rest = dispatch_loop bsys_tbl cookie ds r.2 in
      if not (r.0 == 0) then (r.0, r.1 ∷ ds, r.2) else (rest.0, r.1 ∷ rest.1, rest.2)

-- what a batch comes to: all is answered and the writes go out, or it ends with the writes left
abbrev pub ended : {S : Type 0} → (S → S) → List Desc → List Desc × S → ℕ × List Desc × S
ended flush [] a = (0, a.0, flush a.1)
ended flush (d ∷ post) a = (efault, a.0 ++ (d ∷ post), a.1)
