-- ===== src/Timer/Due.antt =====
-- `timer_insert` and the ticks of `timer_run`: the tick that runs a timer of the first wheel.
use ix.Base.{
  ℕ, ◌+◌, ◌-◌, ◌*◌, ◌/◌, ◌^◌, ◌≤◌, ◌<◌, ◌≡◌, ◌≢◌, refl, false, Option, some, List, ◌∷◌, ◌++◌, arith,
  ◌>>=◌, ==-refl, ◌==◌, Bool-cases, inl, inr, ◌⊎◌, sym, ap, ◌∙◌, add64,
}
use ix.Timer.{
  Timer, TimerWheel, bucket_us, wheel_count, wheel_size, wheel_offset, min_delay_us, link,
  timer_insert,
}
use ix.Timer.Loop.{Request, tick}
use ix.Timer.Insert.{timer_insert-links, pow_le}
use ix.Timer.Run.{timer_run_bucket-runs_all}

-- The tick at `pos` runs a timer that expires at `expires`: it is the tick that this rounds up to, or,
-- for a delay of more than 255 buckets, one of the bucket that is now.
pub IsDue : ℕ → ℕ → ℕ → Type 0
IsDue now expires pos =
    ((expires < pos) × (pos < expires + 2 * min_delay_us))
    ⊎ ((pos / bucket_us 0 ≡ now / bucket_us 0) × (255 * bucket_us 0 < expires + min_delay_us - now))

-- The timers that a tick at `pos` runs, of a wheel that a timer has been linked into.
pub Runs : Option ℕ → Timer → ℕ → TimerWheel → TimerWheel → Type 0
Runs fg t pos tw tw' =
    let due = tw.wheels 0 (wheel_offset pos 0) in
    (IsDue tw.now_us t.expires pos × (tw'.fired ≡ tw.fired ++ (record t { fg_id = fg } ∷ due)))
    ⊎ ((pos / bucket_us 0 ≢ (t.expires + min_delay_us) / bucket_us 0)
        × (tw'.fired ≡ tw.fired ++ due))

first_index :
    (idx d : ℕ) → idx < wheel_count → bucket_us idx ≤ d → d < bucket_us 0 * wheel_size → idx ≡ 0
first_index idx d small from near = elim (Bool-cases (idx == 0)) [
  | inl first ↦ ground arith
  | inr later ↦ absurd (omega (arith, pow_le 12 (idx * 8 + 4) (ground arith)))
]

no_wrap : (n : ℕ) → n + min_delay_us < 2 ^ 64 → add64 n min_delay_us ≡ n + min_delay_us
no_wrap n small = omega arith

-- The bucket of a timer that is linked, and the other ones.
linked_into :
    (fg : Option ℕ) (t : Timer) (tw : TimerWheel) (off : ℕ)
    → t.expires + min_delay_us < 2 ^ 64
    → off ≡ wheel_offset (t.expires + min_delay_us) 0
    → (link fg 0 t tw).wheels 0 off ≡ record t { fg_id = fg } ∷ tw.wheels 0 off
linked_into fg t tw off small e = rw (no_wrap t.expires small, e, ==-refl) refl

linked_elsewhere :
    (fg : Option ℕ) (t : Timer) (tw : TimerWheel) (off : ℕ)
    → t.expires + min_delay_us < 2 ^ 64
    → (off == wheel_offset (t.expires + min_delay_us) 0) ≡ false
    → (link fg 0 t tw).wheels 0 off ≡ tw.wheels 0 off
linked_elsewhere fg t tw off small e = rw (no_wrap t.expires small, e) refl

right_tick :
    (now expires pos : ℕ)
    → now ≤ expires
    → expires + min_delay_us - now < bucket_us 0 * wheel_size
    → now < pos
    → pos ≤ now + bucket_us 0 * wheel_size
    → wheel_offset pos 0 ≡ wheel_offset (expires + min_delay_us) 0
    → IsDue now expires pos
unfolding IsDue
right_tick now expires pos later near after before same = ground arith

ran :
    (handler : Timer → List Request) (pos : ℕ) (tw tw' : TimerWheel)
    → (wheel_offset pos 0 == 0) ≡ false
    → tick handler pos tw ≡ some tw'
    → tw'.fired ≡ tw.fired ++ tw.wheels 0 (wheel_offset pos 0)
unfolding tick
ran handler pos tw tw' unaligned done =
    (timer_run_bucket-runs_all handler (wheel_offset pos 0) tw tw' (rw unaligned at done)).0

-- A timer that is in no list, has not expired, and expires with the rounding less than 4096 us from
-- now is inserted into the wheel, and then one tick of the following 4096 us is done, one that starts
-- no new round of the wheel and does not fault. Either the tick runs it, in front of the timers that
-- the bucket had, and is behind its time by less than two buckets; or the tick is not in the
-- bucket that the timer's time rounds up to, and runs the timers of its own bucket only. A delay of
-- more than 255 buckets is the exception: a tick of the bucket that is now may run the timer.
pub tick-timer_insert :
    (handler : Timer → List Request) (fg : Option ℕ) (t : Timer) (pos : ℕ) (tw tw' : TimerWheel)
    → tw.now_us ≤ t.expires
    → t.expires + min_delay_us < 2 ^ 64
    → t.expires + min_delay_us - tw.now_us < bucket_us 0 * wheel_size
    → tw.now_us < pos
    → pos ≤ tw.now_us + bucket_us 0 * wheel_size
    → (wheel_offset pos 0 == 0) ≡ false
    → tw.pending t.id ≡ false
    → (timer_insert fg t tw >>= tick handler pos) ≡ some tw'
    → Runs fg t pos tw tw'
unfolding Runs
tick-timer_insert handler fg t pos tw tw' later small near after before unaligned free done =
    let off = wheel_offset pos 0 in
    let (idx, inserted, inside, from, to) =
      timer_insert-links fg t tw later small (omega arith) free in
    let first = first_index idx (t.expires + min_delay_us - tw.now_us) inside from near in
    let ticked : tick handler pos (link fg 0 t tw) ≡ some tw' =
      ap (λ i. tick handler pos (link fg i t tw)) (sym first)
      ∙ ap (λ o. o >>= tick handler pos) (sym inserted)
      ∙ done in
    let log = ran handler pos (link fg 0 t tw) tw' unaligned ticked in
    elim (Bool-cases (off == wheel_offset (t.expires + min_delay_us) 0)) [
      | inl same ↦
          let e : off ≡ wheel_offset (t.expires + min_delay_us) 0 = ground arith in
          inl (
            right_tick tw.now_us t.expires pos later near after before e,
            log ∙ ap (λ l. tw.fired ++ l) (linked_into fg t tw off small e),
          )
      | inr other ↦ inr (
        (λ e. ground arith),
        log ∙ ap (λ l. tw.fired ++ l) (linked_elsewhere fg t tw off small other),
      )
    ]
