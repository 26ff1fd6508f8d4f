-- ===== src/Dispatch.antt =====
-- dp/core/syscall.c: a batch of system calls of the user. `bsys_tbl` and `bsys_io_write_flush` are
-- parameters, with the state `S` that they change; a call yields its result and the cookie that it
-- leaves in `syscall_cookie`.
pub mod Batch
mod Tests
use ix.Base.{
  add64, ℕ, ◌+◌, ◌-◌, ◌*◌, ◌^◌, Bool, true, false, ◌&&◌, not, List, [], ◌∷◌, ltb, leb, ◌==◌,
  if◌then◌else◌, length,
}

-- `KSYS_NR`
abbrev pub ksys_nr : ℕ
ksys_nr = 13

-- the error numbers; a descriptor holds a result as a word of 64 bits.
abbrev pub efault : ℕ
efault = 14

abbrev pub enosys : ℕ
enosys = 78

abbrev pub mem_user_start : ℕ
mem_user_start = 0x7000000000

abbrev pub mem_user_end : ℕ
mem_user_end = 0x100000000000

abbrev pub bsys_desc_len : ℕ
bsys_desc_len = 40

-- `uaccess_okay`; `addr + len` wraps.
abbrev pub uaccess_okay : ℕ → ℕ → Bool
uaccess_okay addr len =
    leb len (mem_user_end - mem_user_start)
    && (leb mem_user_start addr && leb (add64 addr len) mem_user_end)

-- `struct bsys_desc` in the memory of the user: its fields, and whether reading or writing it faults.
pub record Desc : Type 0 where
  pub sysnr : ℕ
  pub arga : ℕ
  pub argb : ℕ
  pub argc : ℕ
  pub argd : ℕ
  pub read_faults : Bool
  pub write_faults : Bool

-- what a call of `bsys_tbl` gives: its result and `syscall_cookie`
pub record Result (S : Type 0) : Type 0 where
  pub ret : ℕ
  pub cookie : ℕ
  pub state : S

abbrev pub Table : Type 0 → Type 0
Table S = ℕ → Desc → S → Result S

-- what is written into a descriptor
abbrev pub answered : {S : Type 0} → Desc → Result S → Desc
answered d r = record d { arga = r.cookie; argb = r.ret }

module _ {S : Type 0} (bsys_tbl : Table S) (cookie : S → ℕ) where
  -- the call of a descriptor, or `-ENOSYS`
  pub perform : Desc → S → Result S
  perform d s =
      if leb ksys_nr d.sysnr
      then record { ret = 2 ^ 64 - enosys; cookie = cookie s; state = s }
      else bsys_tbl d.sysnr d s

  -- `bsys_dispatch_one`, with its error number, the descriptor and the state
  pub bsys_dispatch_one : Desc → S → ℕ × Desc × S
  bsys_dispatch_one d s =
      if d.read_faults
      then (efault, d, s)
      else let r = perform d s in
        if d.write_faults then (efault, d, r.state) else (0, answered d r, r.state)

  -- the loop of `bsys_dispatch`
  pub dispatch_loop : List Desc → S → ℕ × List Desc × S
  dispatch_loop [] s = (0, [], s)
  dispatch_loop (d ∷ ds) s =
      let r = bsys_dispatch_one d s in
      let rest = dispatch_loop ds r.2 in
      if not (r.0 == 0) then (r.0, r.1 ∷ ds, r.2) else (rest.0, r.1 ∷ rest.1, rest.2)

abbrev pub flushed : {S : Type 0} → (S → S) → ℕ × List Desc × S → ℕ × List Desc × S
flushed bsys_io_write_flush r = if r.0 == 0 then (0, r.1, bsys_io_write_flush r.2) else r

-- `bsys_dispatch` of the descriptors at an address
pub bsys_dispatch :
    {S : Type 0} → Table S → (S → ℕ) → (S → S) → ℕ → List Desc → S → ℕ × List Desc × S
bsys_dispatch bsys_tbl cookie bsys_io_write_flush addr [] s = (0, [], s)
bsys_dispatch bsys_tbl cookie bsys_io_write_flush addr (d ∷ ds) s =
    if not (uaccess_okay addr (bsys_desc_len * length (d ∷ ds)))
    then (efault, d ∷ ds, s)
    else flushed bsys_io_write_flush (dispatch_loop bsys_tbl cookie (d ∷ ds) s)
