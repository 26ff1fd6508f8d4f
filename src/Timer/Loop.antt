-- ===== src/Timer/Loop.antt =====
-- dp/core/timer.c: handlers, the loop of `timer_run` over the ticks, and `timer_deadline`.
use ix.Base.{
  ℕ, zero, suc, ◌+◌, ◌-◌, ◌*◌, ◌/◌, ◌%◌, ◌++◌, Bool, true, false, ◌||◌, Option, none, some, List,
  [], ◌∷◌, ltb, leb, ◌==◌, if◌then◌else◌, ◌>>=◌, add64,
}
use ix.Timer.{
  Timer, TimerWheel, bucket_us, min_delay_us, set_bucket, timer_add, timer_del, timer_insert,
  timer_mod, timer_unlink, wheel_count, wheel_offset, wheel_size,
}

-- What a handler asks of the timers, with the time that it reads where it adds one.
pub data Request : Type 0 where
  add : Option ℕ → ℕ → Timer → ℕ → Request
  modify : Option ℕ → ℕ → Timer → ℕ → Request
  disarm : ℕ → Request

unfoldable pub serve : List Request → TimerWheel → Option TimerWheel
unfolding timer_add timer_mod
serve [] tw = some tw
serve (add fg now t us ∷ rs) tw = timer_add fg now t us tw >>= serve rs
serve (modify fg now t us ∷ rs) tw = timer_mod fg now t us tw >>= serve rs
serve (disarm id ∷ rs) tw = serve rs (timer_del id tw)

-- the tests of the loop of `timer_run` between two times
abbrev pub ticks : ℕ → ℕ → ℕ
ticks pos now = suc ((now + min_delay_us - pos) / min_delay_us)

-- whether a request takes the timer out of its list
abbrev unlinks : Request → ℕ → Bool
unlinks (add fg now t us) id = false
unlinks (modify fg now t us) id = t.id == id
unlinks (disarm k) id = k == id

abbrev unlinks_any : List Request → ℕ → Bool
unlinks_any [] id = false
unlinks_any (r ∷ rs) id = unlinks r id || unlinks_any rs id

-- whether some requests take one of the timers out of its list
abbrev pub disturbs : List Request → List Timer → Bool
disturbs rs [] = false
disturbs rs (t ∷ ts) = unlinks_any rs t.id || disturbs rs ts

-- The code of the handlers is a parameter: the requests that each makes.
module _ (handler : Timer → List Request) where
  -- A timer leaves its bucket, and its handler is run under its flow group.
  unfoldable pub fire : Timer → TimerWheel → Option TimerWheel
  unfolding serve
  fire t tw =
      let off = timer_unlink t.id tw in
      serve (handler t) (record off {
        fired = off.fired ++ (t ∷ []);
        current_fg = elim t.fg_id [ none ↦ off.current_fg | some fg ↦ some fg ];
      })

  -- A handler in a walk of `hlist_for_each_safe` that has `ts` still before it. One that takes a timer
  -- of these out of the list makes the walk skip it, or go on from a node that is in no list or in
  -- another one: the model follows no such walk, and has `none` for it.
  abbrev pub fire_walk : List Timer → Timer → TimerWheel → Option TimerWheel
  fire_walk ts t tw = if disturbs (handler t) ts then none else fire t tw

  -- the loop of `timer_run_bucket`
  unfoldable pub fire_all : List Timer → TimerWheel → Option TimerWheel
  unfolding fire
  fire_all [] tw = some tw
  fire_all (t ∷ ts) tw = fire_walk ts t tw >>= fire_all ts

  abbrev pub clear_bucket : ℕ → ℕ → TimerWheel → TimerWheel
  clear_bucket idx off tw = record tw { wheels = set_bucket tw.wheels idx off [] }

  unfoldable pub timer_run_bucket : ℕ → TimerWheel → Option TimerWheel
  timer_run_bucket off tw = fire_all (tw.wheels 0 off) tw >>= λ tw'. some (clear_bucket 0 off tw')

  -- the loop of `timer_reinsert_bucket`, less the count, which nothing uses
  unfoldable pub reinsert_all : List Timer → TimerWheel → Option TimerWheel
  unfolding fire timer_insert
  reinsert_all [] tw = some tw
  reinsert_all (t ∷ ts) tw =
      (if leb t.expires tw.now_us
        then fire_walk ts t tw
        else timer_insert t.fg_id t (timer_unlink t.id tw))
      >>= reinsert_all ts

  unfoldable pub timer_reinsert_bucket : ℕ → ℕ → TimerWheel → Option TimerWheel
  timer_reinsert_bucket idx off tw = reinsert_all (tw.wheels idx off) tw

  -- the rounds of `timer_collapse` from `wheel` on, of which `n` are left
  unfoldable pub collapse_from : ℕ → ℕ → ℕ → TimerWheel → Option TimerWheel
  unfolding timer_reinsert_bucket
  collapse_from zero wheel pos tw = some tw
  collapse_from (suc n) wheel pos tw =
      let off = wheel_offset pos wheel in
      timer_reinsert_bucket wheel off tw >>= λ tw'.
      (let more = collapse_from n (suc wheel) pos tw' in if off == 0 then more else some tw')

  unfoldable pub timer_collapse : ℕ → TimerWheel → Option TimerWheel
  timer_collapse pos tw = collapse_from (wheel_count - 1) 1 pos tw

  -- one round of `timer_run`
  unfoldable pub tick : ℕ → TimerWheel → Option TimerWheel
  tick pos tw =
      (if wheel_offset pos 0 == 0 then timer_collapse pos tw else some tw)
      >>= timer_run_bucket (wheel_offset pos 0)

  -- The loop of `timer_run`, on fuel. Without fuel it stands where it is, at a tick that is due.
  unfoldable pub run_ticks : ℕ → ℕ → TimerWheel → Option TimerWheel
  run_ticks zero pos tw = some (record tw { timer_pos = pos })
  run_ticks (suc n) pos tw =
      if leb pos tw.now_us
      then (tick pos tw >>= λ tw'. run_ticks n (add64 pos min_delay_us) tw')
      else some (record tw { timer_pos = pos; current_fg = none })

  unfoldable pub timer_run : ℕ → TimerWheel → Option TimerWheel
  timer_run timer_now tw =
      run_ticks (ticks tw.timer_pos timer_now) tw.timer_pos (record tw { now_us = timer_now })

abbrev pub is_empty : List Timer → Bool
is_empty [] = true
is_empty (t ∷ ts) = false

-- The search of `timer_deadline` in one wheel: the first of `n` buckets from `start` on that holds
-- a timer, as its number.
unfoldable pub first_full : (ℕ → List Timer) → ℕ → ℕ → Option ℕ
first_full wheel start zero = none
first_full wheel start (suc n) =
    let later = first_full wheel (start + 1) n in
    if is_empty (wheel (start % wheel_size)) then later else some start

-- The rounds of `timer_deadline` from wheel `idx` on, of which `n` are left: the time of the first
-- bucket that holds a timer.
unfoldable pub deadline_from : ℕ → ℕ → ℕ → TimerWheel → Option ℕ
deadline_from zero idx future_us tw = none
deadline_from (suc n) idx future_us tw =
    let later = deadline_from n (suc idx) future_us tw in
    let start = tw.now_us / bucket_us idx in
    let last = future_us / bucket_us idx in
    if start == last
    then none
    else (let stop = if ltb last (start + wheel_size) then last else start + wheel_size in
        elim (first_full (tw.wheels idx) (start + 1) (stop - start)) [
          | none ↦ later
          | some bucket ↦ some (bucket * bucket_us idx)
        ])

unfoldable pub timer_deadline : ℕ → ℕ → TimerWheel → ℕ
timer_deadline timer_now max_deadline_us tw =
    elim (deadline_from wheel_count 0 (add64 tw.now_us max_deadline_us) tw) [
      | none ↦ max_deadline_us
      | some deadline_us ↦ if leb deadline_us timer_now then 0 else deadline_us - timer_now
    ]
