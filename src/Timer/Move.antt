-- ===== src/Timer/Move.antt =====
-- dp/core/timer.c: the timers of flow groups that move to another core, `timer_collect_fgs` and
-- `timer_reinject_fgs`.
pub mod Collect
pub mod Wanted
use ix.Base.{
  ℕ, zero, suc, ◌+◌, ◌-◌, ◌≤◌, ◌<◌, ◌≡◌, ◌^◌, refl, Bool, true, false, ◌&&◌, not, Option, none,
  some, List, [], ◌∷◌, ◌++◌, arith, ltb, leb, ◌==◌, if◌then◌else◌, ◌>>=◌, length, sub64, Bool-cases,
  inl, inr, ap, ◌∙◌, sym,
}
use ix.Timer.{
  Timer, TimerWheel, set_bucket, set_pending, wheel_count, wheel_size, timer_add,
  timer_add_for_next_tick,
}

-- `t->fg_id >= 0 && fg_vector[t->fg_id]`
abbrev pub is_wanted : (ℕ → Bool) → Timer → Bool
is_wanted fg_vector t = elim t.fg_id [ none ↦ false | some fg ↦ fg_vector fg ]

-- The loop over one bucket in `timer_collect_fgs`: the timers that stay, and the list with those
-- that were taken in front, the last one first.
unfoldable pub collect_bucket : (ℕ → Bool) → List Timer → List Timer → List Timer × List Timer
collect_bucket fg_vector [] list = ([], list)
collect_bucket fg_vector (t ∷ ts) list =
    let taken = collect_bucket fg_vector ts (t ∷ list) in
    let kept = collect_bucket fg_vector ts list in
    if is_wanted fg_vector t then taken else (t ∷ kept.0, kept.1)

-- the loop over the positions of one wheel, of which `n` are left
unfoldable pub collect_wheel :
    (ℕ → Bool) → ℕ → ℕ → ℕ → TimerWheel → List Timer → TimerWheel × List Timer
collect_wheel fg_vector idx pos zero tw list = (tw, list)
collect_wheel fg_vector idx pos (suc n) tw list =
    let (kept, list') = collect_bucket fg_vector (tw.wheels idx pos) list in
    collect_wheel fg_vector idx (pos + 1) n
      (record tw { wheels = set_bucket tw.wheels idx pos kept }) list'

-- the loop over the wheels, of which `n` are left
unfoldable pub collect_from : (ℕ → Bool) → ℕ → ℕ → TimerWheel → List Timer → TimerWheel × List Timer
collect_from fg_vector idx zero tw list = (tw, list)
collect_from fg_vector idx (suc n) tw list =
    let (tw', list') = collect_wheel fg_vector idx 0 wheel_size tw list in
    collect_from fg_vector (idx + 1) n tw' list'

-- `timer_collect_fgs`: the wheel and the list behind it, `*timer_pos` and the count. A timer that is
-- taken keeps its `link.prev`, and so counts as pending.
unfoldable pub timer_collect_fgs :
    (ℕ → Bool) → TimerWheel → List Timer → (TimerWheel × List Timer) × (ℕ × ℕ)
timer_collect_fgs fg_vector tw list =
    let (tw', list') = collect_from fg_vector 0 wheel_count tw list in
    ((tw', list'), (tw.timer_pos, length list' - length list))

-- `timer_reinject_fgs`: the delay is an `int64_t`; a timer without a flow group fails an assertion.
-- A timer that is linked again leaves the list that it is in.
unfoldable pub timer_reinject_fgs : ℕ → ℕ → List Timer → TimerWheel → Option TimerWheel
timer_reinject_fgs timer_now timer_pos [] tw = some tw
timer_reinject_fgs timer_now timer_pos (t ∷ ts) tw =
    let t_base = if leb tw.timer_pos timer_pos then tw.timer_pos else timer_pos in
    let delay = sub64 t.expires t_base in
    let loose = record tw { pending = set_pending tw.pending t.id false } in
    elim t.fg_id [
      | none ↦ none
      | some fg ↦
          (if delay == 0
            then timer_add_for_next_tick (some fg) t loose
            else if leb (2 ^ 63) delay
            then timer_add_for_next_tick (some fg) t loose
            else timer_add (some fg) timer_now t delay loose)
          >>= timer_reinject_fgs timer_now timer_pos ts
    ]
