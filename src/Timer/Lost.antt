-- ===== src/Timer/Lost.antt =====
-- A timer that a handler adds to the bucket that is being run.
use ix.Base.{
  ℕ, ◌≡◌, refl, Bool, true, false, ◌||◌, ◌&&◌, Option, none, some, List, [], ◌∷◌, arith, leb, ◌==◌,
  Bool-cases, inl, inr, add64, AllSome, AllSome-if, AllSome-bind, ==-refl, of_AllSome,
}
use ix.Timer.{
  Timer, TimerWheel, wheel_index, wheel_offset, min_delay_us, unlink, insert_delay, timer_insert,
  timer_add, max_delay_us,
}
use ix.Timer.Loop.{Request, add, serve, fire, fire_all, timer_run_bucket, clear_bucket}

abbrev pub is_linked : ℕ → List Timer → Bool
is_linked id [] = false
is_linked id (t ∷ ts) = t.id == id || is_linked id ts

is_linked-unlink :
    (id k : ℕ) (ts : List Timer) → is_linked id ts ≡ false → is_linked id (unlink k ts) ≡ false
is_linked-unlink id k [] free = refl
is_linked-unlink id k (t ∷ ts) free =
    let rest = is_linked-unlink id k ts (ground arith) in ground arith

abbrev IsLost : ℕ → TimerWheel → Type 0
IsLost id tw = (tw.pending id ≡ true) × ((i o : ℕ) → is_linked id (tw.wheels i o) ≡ false)

module _ (handler : Timer → List Request) (off : ℕ) (t u : Timer) (fg : Option ℕ) (timer_now us : ℕ)
    (tw : TimerWheel) (only : tw.wheels 0 off ≡ t ∷ [])
    (asks : handler t ≡ add fg timer_now u us ∷ [])
    (free : (i o : ℕ) → is_linked u.id (tw.wheels i o) ≡ false)
    (index : wheel_index (insert_delay tw (record u { expires = add64 timer_now us })) ≡ some 0)
    (same : wheel_offset (add64 (add64 timer_now us) min_delay_us) 0 ≡ off) where
  -- behind the handler, `u` is linked nowhere else
  Elsewhere : TimerWheel → Type 0
  Elsewhere c =
      (c.pending u.id ≡ true)
      × ((i o : ℕ) → (i == 0 && o == off) ≡ false → is_linked u.id (c.wheels i o) ≡ false)

  added :
      (before : TimerWheel)
      → before.now_us ≡ tw.now_us
      → before.wheels ≡ (λ i o. unlink t.id (tw.wheels i o))
      → AllSome Elsewhere (timer_add fg timer_now u us before)
  unfolding timer_add timer_insert Elsewhere
  added before now wheels = AllSome-if Elsewhere (us == 0) none _ tt (
      AllSome-if Elsewhere (leb max_delay_us us) none _ tt (
        rw (now, index)
          (AllSome-if Elsewhere (before.pending u.id) none _ tt (
            rw ==-refl refl,
            λ i o out.
                rw (same, out, wheels) (is_linked-unlink u.id t.id (tw.wheels i o) (free i o)),
          ))))

  cleared :
      (c : TimerWheel)
      → Elsewhere c
      → (i o : ℕ) → is_linked u.id ((clear_bucket handler 0 off c).wheels i o) ≡ false
  unfolding Elsewhere
  cleared c p i o = elim (Bool-cases (i == 0 && o == off)) [
    | inl here ↦ rw here refl
    | inr away ↦ rw away (p.1 i o away)
  ]

  loses : AllSome (IsLost u.id) (timer_run_bucket handler off tw)
  unfolding timer_run_bucket fire_all fire serve Elsewhere
  loses =
      rw (only, asks)
        (AllSome-bind Elsewhere (IsLost u.id) _ _
          (AllSome-bind Elsewhere Elsewhere _ _
            (AllSome-bind Elsewhere Elsewhere _ _ (added _ refl refl) (λ c p. p)) (λ c p. p))
          (λ c p. (p.0, cleared c p)))

-- A timer `u` that the handler of the only timer of a bucket adds, and that falls into the bucket
-- itself, is lost: when the bucket has been run, `u` counts as pending and is in no bucket.
pub timer_run_bucket-loses :
    (handler : Timer → List Request) (off : ℕ) (t u : Timer) (fg : Option ℕ) (timer_now us : ℕ)
    (tw tw' : TimerWheel)
    → tw.wheels 0 off ≡ t ∷ []
    → handler t ≡ add fg timer_now u us ∷ []
    → ((i o : ℕ) → is_linked u.id (tw.wheels i o) ≡ false)
    → wheel_index (insert_delay tw (record u { expires = add64 timer_now us })) ≡ some 0
    → wheel_offset (add64 (add64 timer_now us) min_delay_us) 0 ≡ off
    → timer_run_bucket handler off tw ≡ some tw'
    → (tw'.pending u.id ≡ true) × ((i o : ℕ) → is_linked u.id (tw'.wheels i o) ≡ false)
timer_run_bucket-loses handler off t u fg timer_now us tw tw' only asks free index same done =
    of_AllSome (IsLost u.id) _ tw'
      (loses handler off t u fg timer_now us tw only asks free index same) done
