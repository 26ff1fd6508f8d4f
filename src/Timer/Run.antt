-- ===== src/Timer/Run.antt =====
-- `timer_run`: what a bucket runs, and where the loop over the ticks ends.
use ix.Base.{
  ◌^◌, add64, ℕ, zero, suc, ◌+◌, ◌-◌, ◌%◌, ◌≤◌, ◌<◌, ◌≡◌, refl, Option, none, some, List, [], ◌∷◌,
  ◌++◌, arith, leb, ltb, ◌==◌, if◌then◌else◌, ◌>>=◌, Bool-cases, inl, inr, ap, ◌∙◌, sym, ==-refl,
  AllSome, AllSome-bind, AllSome-if, AllSome-any, AllSome-imp, of_AllSome,
}
use mathlib.Core.List.{append_assoc, append-nil}
use ix.Timer.{
  Timer, TimerWheel, wheel_index, wheel_offset, wheel_count, min_delay_us, max_delay_us,
  insert_delay, timer_insert, timer_add, timer_mod, timer_del, timer_unlink,
}
use ix.Timer.Loop.{
  Request, add, modify, disarm, serve, fire, fire_walk, disturbs, fire_all, timer_run_bucket,
  reinsert_all, timer_reinsert_bucket, collapse_from, timer_collapse, tick, run_ticks, ticks,
  timer_run,
}

-- What the requests of a handler leave alone.
record SameRun (tw tw' : TimerWheel) : Type 0 where
  now : tw'.now_us ≡ tw.now_us
  log : tw'.fired ≡ tw.fired

SameRun-insert :
    (fg : Option ℕ) (t : Timer) (tw : TimerWheel) → AllSome (SameRun tw) (timer_insert fg t tw)
unfolding timer_insert
SameRun-insert fg t tw =
    AllSome-bind (λ idx. Unit) (SameRun tw) (wheel_index (insert_delay tw t)) _ (AllSome-any _)
      (λ idx u.
        AllSome-if (SameRun tw) (ltb idx wheel_count) _ none
          (AllSome-if (SameRun tw) (tw.pending t.id) none _ tt (record { now = refl; log = refl }))
          tt)

SameRun-add :
    (fg : Option ℕ) (now : ℕ) (t : Timer) (us : ℕ) (tw : TimerWheel)
    → AllSome (SameRun tw) (timer_add fg now t us tw)
unfolding timer_add
SameRun-add fg now t us tw =
    AllSome-if (SameRun tw) (us == 0) none _ tt
      (AllSome-if (SameRun tw) (leb max_delay_us us) none _ tt (SameRun-insert fg _ tw))

SameRun-del : (id : ℕ) (tw : TimerWheel) → SameRun tw (timer_del id tw)
SameRun-del id tw = elim (Bool-cases (tw.pending id)) [
  | inl linked ↦ rw linked (record { now = refl; log = refl })
  | inr free ↦ rw free (record { now = refl; log = refl })
]

-- The relation of a step and of the next one.
SameRun-then : (a b c : TimerWheel) → SameRun a b → SameRun b c → SameRun a c
SameRun-then a b c p q = record { now = q.now ∙ p.now; log = q.log ∙ p.log }

all_then :
    (a b : TimerWheel) (o : Option TimerWheel)
    → SameRun a b
    → AllSome (SameRun b) o
    → AllSome (SameRun a) o
all_then a b o p = AllSome-imp (SameRun b) (SameRun a) o (λ c. SameRun-then a b c p)

SameRun-serve : (rs : List Request) (tw : TimerWheel) → AllSome (SameRun tw) (serve rs tw)
unfolding serve
SameRun-serve [] tw = record { now = refl; log = refl }
SameRun-serve (add fg now t us ∷ rs) tw =
    AllSome-bind (SameRun tw) (SameRun tw) (timer_add fg now t us tw) (serve rs)
      (SameRun-add fg now t us tw) (λ tw' p. all_then tw tw' _ p (SameRun-serve rs tw'))
SameRun-serve (modify fg now t us ∷ rs) tw =
    AllSome-bind (SameRun tw) (SameRun tw) (timer_mod fg now t us tw) (serve rs)
      (all_then tw (timer_del t.id tw) _ (SameRun-del t.id tw)
        (SameRun-add fg now t us (timer_del t.id tw)))
      (λ tw' p. all_then tw tw' _ p (SameRun-serve rs tw'))
SameRun-serve (disarm id ∷ rs) tw =
    all_then tw (timer_del id tw) _ (SameRun-del id tw) (SameRun-serve rs (timer_del id tw))

-- the last tick that `timer_run` may stand at
abbrev max_pos : ℕ → ℕ → ℕ
max_pos pos now = if leb pos (now + min_delay_us) then now + min_delay_us else pos

-- where `timer_run` ends
pub IsEnd : ℕ → ℕ → TimerWheel → Type 0
IsEnd now pos tw =
    (now < tw.timer_pos)
    × (tw.timer_pos ≤ max_pos pos now)
    × (tw.timer_pos % min_delay_us ≡ pos % min_delay_us)
    × (tw.now_us ≡ now)
    × (tw.current_fg ≡ none)

module _ (handler : Timer → List Request) where
  -- The time stays, and the log has the handlers that were run at its end.
  record Ran (ts : List Timer) (tw tw' : TimerWheel) : Type 0 where
    now : tw'.now_us ≡ tw.now_us
    log : tw'.fired ≡ tw.fired ++ ts

  Ran-fire : (t : Timer) (tw : TimerWheel) → AllSome (Ran (t ∷ []) tw) (fire handler t tw)
  unfolding fire
  Ran-fire t tw =
      let before : TimerWheel = record (timer_unlink t.id tw) {
        fired = tw.fired ++ (t ∷ []);
        current_fg = elim t.fg_id [ none ↦ tw.current_fg | some fg ↦ some fg ];
      } in
      AllSome-imp (SameRun before) (Ran (t ∷ []) tw) (serve (handler t) before)
        (λ c p. record { now = p.now; log = p.log }) (SameRun-serve (handler t) before)

  Ran-walk :
      (ts : List Timer) (t : Timer) (tw : TimerWheel)
      → AllSome (Ran (t ∷ []) tw) (fire_walk handler ts t tw)
  Ran-walk ts t tw =
      AllSome-if (Ran (t ∷ []) tw) (disturbs (handler t) ts) none (fire handler t tw) tt
        (Ran-fire t tw)

  Ran-then :
      (ts us : List Timer) (a b c : TimerWheel) → Ran ts a b → Ran us b c → Ran (ts ++ us) a c
  Ran-then ts us a b c p q = record {
    now = q.now ∙ p.now;
    log = q.log ∙ ap (λ l. l ++ us) p.log ∙ append_assoc a.fired ts us;
  }

  Ran-all : (ts : List Timer) (tw : TimerWheel) → AllSome (Ran ts tw) (fire_all handler ts tw)
  unfolding fire_all
  Ran-all [] tw = record { now = refl; log = sym (append-nil tw.fired) }
  Ran-all (t ∷ ts) tw =
      AllSome-bind (Ran (t ∷ []) tw) (Ran (t ∷ ts) tw) (fire_walk handler ts t tw)
        (fire_all handler ts) (Ran-walk ts t tw)
        (λ tw' p.
          AllSome-imp (Ran ts tw') (Ran (t ∷ ts) tw) (fire_all handler ts tw')
            (λ c. Ran-then (t ∷ []) ts tw tw' c p) (Ran-all ts tw'))

  run_all :
      (off : ℕ) (tw : TimerWheel)
      → AllSome
          (λ w.
            (w.fired ≡ tw.fired ++ tw.wheels 0 off)
            × (w.wheels 0 off ≡ [])
            × (w.now_us ≡ tw.now_us))
          (timer_run_bucket handler off tw)
  unfolding timer_run_bucket
  run_all off tw =
      AllSome-bind (Ran (tw.wheels 0 off) tw) _ (fire_all handler (tw.wheels 0 off) tw) _
        (Ran-all (tw.wheels 0 off) tw) (λ w p. (p.log, rw ==-refl refl, p.now))

  -- A bucket that is run with no fault, and whose handlers stop or move no timer of it that is still
  -- to be run, has the handler of each of its timers run once, in their order, and is empty behind
  -- it. The time that the wheel has is the same.
  pub timer_run_bucket-runs_all :
      (off : ℕ) (tw tw' : TimerWheel)
      → timer_run_bucket handler off tw ≡ some tw'
      → (tw'.fired ≡ tw.fired ++ tw.wheels 0 off)
        × (tw'.wheels 0 off ≡ [])
        × (tw'.now_us ≡ tw.now_us)
  unfolding timer_run_bucket
  timer_run_bucket-runs_all off tw tw' done =
      of_AllSome
        (λ w.
          (w.fired ≡ tw.fired ++ tw.wheels 0 off) × (w.wheels 0 off ≡ []) × (w.now_us ≡ tw.now_us))
        _ tw' (run_all off tw) done

  -- The same time: what the loop over the ticks needs of a tick.
  abbrev SameNow : TimerWheel → TimerWheel → Type 0
  SameNow tw tw' = tw'.now_us ≡ tw.now_us

  now_bind :
      (tw : TimerWheel) (o : Option TimerWheel) (f : TimerWheel → Option TimerWheel)
      → AllSome (SameNow tw) o
      → ((w : TimerWheel) → AllSome (SameNow w) (f w))
      → AllSome (SameNow tw) (o >>= f)
  now_bind tw o f p q =
      AllSome-bind (SameNow tw) (SameNow tw) o f p
        (λ w same. AllSome-imp (SameNow w) (SameNow tw) (f w) (λ c e. e ∙ same) (q w))

  SameNow-reinsert :
      (ts : List Timer) (tw : TimerWheel) → AllSome (SameNow tw) (reinsert_all handler ts tw)
  unfolding reinsert_all
  SameNow-reinsert [] tw = refl
  SameNow-reinsert (t ∷ ts) tw =
      now_bind tw _ (reinsert_all handler ts)
        (AllSome-if (SameNow tw) (leb t.expires tw.now_us) _ _
          (AllSome-imp (Ran (t ∷ []) tw) (SameNow tw) (fire_walk handler ts t tw) (λ c p. p.now)
            (Ran-walk ts t tw))
          (AllSome-imp (SameRun (timer_unlink t.id tw)) (SameNow tw)
            (timer_insert t.fg_id t (timer_unlink t.id tw)) (λ c p. p.now)
            (SameRun-insert t.fg_id t (timer_unlink t.id tw))))
        (SameNow-reinsert ts)

  SameNow-collapse :
      (n wheel pos : ℕ) (tw : TimerWheel)
      → AllSome (SameNow tw) (collapse_from handler n wheel pos tw)
  unfolding collapse_from timer_reinsert_bucket
  SameNow-collapse zero wheel pos tw = refl
  SameNow-collapse (suc n) wheel pos tw =
      now_bind tw _ _ (SameNow-reinsert (tw.wheels wheel (wheel_offset pos wheel)) tw) (λ w.
        AllSome-if (SameNow w) (wheel_offset pos wheel == 0) _ _
          (SameNow-collapse n (suc wheel) pos w) refl)

  SameNow-tick : (pos : ℕ) (tw : TimerWheel) → AllSome (SameNow tw) (tick handler pos tw)
  unfolding tick timer_collapse
  SameNow-tick pos tw =
      now_bind tw _ _
        (AllSome-if (SameNow tw) (wheel_offset pos 0 == 0) _ _
          (SameNow-collapse (wheel_count - 1) 1 pos tw) refl)
        (λ w.
          AllSome-imp _ (SameNow w) (timer_run_bucket handler (wheel_offset pos 0) w) (λ c p. p.2)
            (run_all (wheel_offset pos 0) w))

  -- the next tick, as long as the time stays below the end of its word
  next : (pos now : ℕ) → pos ≤ now → now + 16 < 2 ^ 64 → add64 pos min_delay_us ≡ pos + min_delay_us
  next pos now due word = omega arith

  ends :
      (n now pos : ℕ) (tw : TimerWheel)
      → tw.now_us ≡ now
      → now + 16 < 2 ^ 64
      → ticks pos now ≤ n
      → AllSome (IsEnd now pos) (run_ticks handler n pos tw)
  unfolding run_ticks IsEnd
  ends zero now pos tw same word fuel = absurd (omega arith)
  ends (suc n) now pos tw same word fuel = elim (Bool-cases (leb pos tw.now_us)) [
    | inr past ↦ rw past (ground arith, ground arith, refl, same, refl)
    | inl due ↦
        let early : pos ≤ now = ground (arith, same) in
        rw (due, next pos now early word)
          (AllSome-bind (SameNow tw) (IsEnd now pos) (tick handler pos tw) _ (SameNow-tick pos tw)
            (λ w e.
              AllSome-imp (IsEnd now (pos + min_delay_us)) (IsEnd now pos)
                (run_ticks handler n (pos + min_delay_us) w)
                (λ c p. (p.0, ground arith, omega (arith, p.2), p.3, p.4))
                (ends n now (pos + min_delay_us) w (e ∙ same) word (omega arith))))
  ]

  -- The loop of `timer_run` ends, if no handler faults and the time is below the end of its word by a
  -- tick: the fuel is enough, since the wheel does not stand at a tick that is due, as it does without
  -- fuel. It stands at the first tick behind the time that is in step with the tick that it stood
  -- at, or where it stood if that is further on. It has the time, and no flow group is current.
  pub timer_run-ends :
      (timer_now : ℕ) (tw tw' : TimerWheel)
      → timer_now + 16 < 2 ^ 64
      → timer_run handler timer_now tw ≡ some tw'
      → IsEnd timer_now tw.timer_pos tw'
  unfolding timer_run
  timer_run-ends timer_now tw tw' word done =
      of_AllSome (IsEnd timer_now tw.timer_pos) _ tw'
        (ends (ticks tw.timer_pos timer_now) timer_now tw.timer_pos
          (record tw { now_us = timer_now }) refl word (omega arith))
        done
