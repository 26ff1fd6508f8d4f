-- ===== src/Timer/Tests.antt =====
-- The timer wheel: tests, and its theorems at small wheels.
use ix.Base.{
  ℕ, ◌≡◌, refl, true, false, none, some, List, [], ◌∷◌, ◌++◌, arith, ◌==◌, ◌&&◌, ◌>>=◌,
  if◌then◌else◌, Bool-cases, inl, inr,
}
use ix.Timer.{Timer, TimerWheel, clz, wheel_index, timer_insert, timer_add}
use ix.Timer.Loop.{
  Request, add, timer_run_bucket, fire, fire_all, serve, run_ticks, timer_run, tick, timer_collapse,
  collapse_from, timer_reinsert_bucket, reinsert_all,
}
use ix.Timer.Due.{Runs, tick-timer_insert}
use ix.Timer.Run.{timer_run_bucket-runs_all, timer_run-ends, IsEnd}
use ix.Timer.Lost.{is_linked, timer_run_bucket-loses}

abbrev timer : ℕ → ℕ → Timer
timer id expires = record { id = id; expires = expires; fg_id = none }

-- one timer in the first bucket
abbrev first : Timer
first = timer 1 0

abbrev second : Timer
second = timer 2 4094

abbrev wheel : TimerWheel
wheel = record {
  now_us = 15;
  timer_pos = 0;
  wheels = λ i o. if i == 0 && o == 0 then first ∷ [] else [];
  pending = λ i. i == 1;
  fired = [];
  current_fg = none;
}

-- the handler of the first timer adds the second one
abbrev again : Timer → List Request
again t = if t.id == 1 then add none 15 second 4079 ∷ [] else []

-- a handler that asks for nothing
abbrev silent : Timer → List Request
silent t = []

-- what inserting a timer and a tick come to
abbrev insert_and_tick : ℕ → TimerWheel
insert_and_tick pos = elim (timer_insert (some 4) (timer 3 100) wheel >>= tick silent pos) [
  | none ↦ wheel
  | some tw ↦ tw
]

tick-timer_insert_example : Runs (some 4) (timer 3 100) 112 wheel (insert_and_tick 112)
unfolding timer_insert tick timer_run_bucket fire_all fire serve wheel_index clz
tick-timer_insert_example =
    tick-timer_insert silent (some 4) (timer 3 100) 112 wheel (insert_and_tick 112) (omega arith)
      (omega arith) (omega arith) (omega arith) (omega arith) refl refl refl

-- what running the first bucket of the wheel comes to
abbrev run_first : (Timer → List Request) → TimerWheel
run_first handler = elim (timer_run_bucket handler 0 wheel) [ none ↦ wheel | some tw ↦ tw ]

run_first-again : timer_run_bucket again 0 wheel ≡ some (run_first again)
unfolding timer_run_bucket fire_all fire serve timer_add timer_insert wheel_index clz
run_first-again = refl

timer_run_bucket-runs_all_example :
    ((run_first again).fired ≡ wheel.fired ++ (first ∷ []))
    × ((run_first again).wheels 0 0 ≡ [])
    × ((run_first again).now_us ≡ 15)
timer_run_bucket-runs_all_example =
    timer_run_bucket-runs_all again 0 wheel (run_first again) run_first-again

not_linked : (i o : ℕ) → is_linked 2 (wheel.wheels i o) ≡ false
not_linked i o = elim (Bool-cases (i == 0 && o == 0)) [
  | inl here ↦ rw here refl
  | inr away ↦ rw away refl
]

timer_run_bucket-loses_example :
    ((run_first again).pending 2 ≡ true)
    × ((i o : ℕ) → is_linked 2 ((run_first again).wheels i o) ≡ false)
unfolding wheel_index clz
timer_run_bucket-loses_example =
    timer_run_bucket-loses again 0 first second none 15 4079 wheel (run_first again) refl refl
      not_linked refl refl run_first-again

-- what a whole run to time 15 comes to
abbrev run_to_15 : TimerWheel
run_to_15 = elim (timer_run silent 15 wheel) [ none ↦ wheel | some tw ↦ tw ]

run_to_15-done : timer_run silent 15 wheel ≡ some run_to_15
unfolding timer_run run_ticks tick timer_collapse collapse_from timer_reinsert_bucket reinsert_all
    timer_run_bucket fire_all fire serve
run_to_15-done = refl

timer_run-ends_example : IsEnd 15 0 run_to_15
timer_run-ends_example = timer_run-ends silent 15 wheel run_to_15 (omega arith) run_to_15-done

-- timers of the flow groups 0 and 1 in one bucket
abbrev grouped : TimerWheel
grouped = record wheel {
  wheels = λ i o.
      if i == 1 && o == 3
      then record first { fg_id = some 0 } ∷ record second { fg_id = some 1 } ∷ []
      else [];
}
