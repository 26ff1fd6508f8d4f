-- ===== src/Timer.antt =====
-- dp/core/timer.c and inc/ix/timer.h: the hierarchical timer wheel of one core. A bucket is the
-- list of its timers, the head first. `none` is a fault: a failed assertion, a panic, a write
-- outside of `wheels`, or a timer linked twice.
pub mod Loop
pub mod Insert
pub mod Move
pub mod Run
pub mod Lost
pub mod Deadline
pub mod Due
mod Tests
use ix.Base.{
  ℕ, zero, suc, ◌+◌, ◌-◌, ◌*◌, ◌/◌, ◌%◌, ◌^◌, ◌++◌, Bool, true, false, ◌&&◌, Option, none, some,
  List, [], ◌∷◌, ltb, leb, ◌==◌, if◌then◌else◌, ◌>>=◌, add64, sub64,
}

abbrev wheel_shift : ℕ
wheel_shift = 8

abbrev pub wheel_size : ℕ
wheel_size = 2 ^ wheel_shift

abbrev pub wheel_count : ℕ
wheel_count = 3

abbrev min_delay_shift : ℕ
min_delay_shift = 4

abbrev pub min_delay_us : ℕ
min_delay_us = 2 ^ min_delay_shift

abbrev pub max_delay_us : ℕ
max_delay_us = min_delay_us * 2 ^ (wheel_count * wheel_shift)

-- `1 << WHEEL_IDX_TO_SHIFT(idx)`
abbrev pub bucket_us : ℕ → ℕ
bucket_us idx = 2 ^ (idx * wheel_shift + min_delay_shift)

-- `WHEEL_OFFSET(val, idx)`
abbrev pub wheel_offset : ℕ → ℕ → ℕ
wheel_offset val idx = val / bucket_us idx % wheel_size

-- `struct timer`: its address, and `none` for a negative `fg_id`
pub record Timer : Type 0 where
  pub id : ℕ
  pub expires : ℕ
  pub fg_id : Option ℕ

-- `struct timerwheel`; `pending` says of which timers `link.prev` is set, `fired` lists the
-- handlers that were run, the oldest first, and `current_fg` is the current flow group.
pub record TimerWheel : Type 0 where
  pub now_us : ℕ
  pub timer_pos : ℕ
  pub wheels : ℕ → ℕ → List Timer
  pub pending : ℕ → Bool
  pub fired : List Timer
  pub current_fg : Option ℕ

abbrev pub set_bucket : (ℕ → ℕ → List Timer) → ℕ → ℕ → List Timer → ℕ → ℕ → List Timer
set_bucket wheels idx off bucket i o = if i == idx && o == off then bucket else wheels i o

abbrev pub set_pending : (ℕ → Bool) → ℕ → Bool → ℕ → Bool
set_pending pending id b i = if i == id then b else pending i

abbrev pub unlink : ℕ → List Timer → List Timer
unlink id [] = []
unlink id (t ∷ ts) = if t.id == id then unlink id ts else t ∷ unlink id ts

-- `__timer_del`: the node leaves the list that it is in.
abbrev pub timer_unlink : ℕ → TimerWheel → TimerWheel
timer_unlink id tw = record tw {
  wheels = λ i o. unlink id (tw.wheels i o);
  pending = set_pending tw.pending id false;
}

-- `timer_del`
abbrev pub timer_del : ℕ → TimerWheel → TimerWheel
timer_del id tw = if tw.pending id then timer_unlink id tw else tw

-- `__builtin_clzll` on the lowest `n` bits, 64 for a whole word
pub clz : ℕ → ℕ → ℕ
clz zero x = 0
clz (suc n) x = let rest = clz n x in if leb (2 ^ n) x then 0 else suc rest

-- the delay that `timer_insert` chooses the wheel by, in `uint64_t`
abbrev pub insert_delay : TimerWheel → Timer → ℕ
insert_delay tw t = sub64 (add64 t.expires min_delay_us) tw.now_us

-- The `index` of `timer_insert`, or `none` for a negative one.
pub wheel_index : ℕ → Option ℕ
wheel_index delay_us =
    let top = 63 - clz 64 delay_us in
    if leb min_delay_shift top then some ((top - min_delay_shift) / 8) else none

abbrev pub link : Option ℕ → ℕ → Timer → TimerWheel → TimerWheel
link cur_fg idx t tw =
    let off = wheel_offset (add64 t.expires min_delay_us) idx in
    record tw {
      wheels = set_bucket tw.wheels idx off (record t { fg_id = cur_fg } ∷ tw.wheels idx off);
      pending = set_pending tw.pending t.id true;
    }

-- `timer_insert`. The source links a timer without a look at whether it is in a list; the links of a
-- list that it is in would be broken, so that the model has `none` for a timer that is pending.
pub timer_insert : Option ℕ → Timer → TimerWheel → Option TimerWheel
timer_insert cur_fg t tw = wheel_index (insert_delay tw t) >>= λ idx.
    if ltb idx wheel_count
    then (if tw.pending t.id then none else some (link cur_fg idx t tw))
    else none

-- `timer_now` is `rdtsc() / cycles_per_us`, an argument. `__timer_add`, as `timer_add` calls it.
pub timer_add : Option ℕ → ℕ → Timer → ℕ → TimerWheel → Option TimerWheel
timer_add cur_fg timer_now t delay_us tw =
    if delay_us == 0
    then none
    else if leb max_delay_us delay_us
    then none
    else timer_insert cur_fg (record t { expires = add64 timer_now delay_us }) tw

pub timer_mod : Option ℕ → ℕ → Timer → ℕ → TimerWheel → Option TimerWheel
timer_mod cur_fg timer_now t usecs tw = timer_add cur_fg timer_now t usecs (timer_del t.id tw)

unfoldable timer_add_abs : Option ℕ → Timer → ℕ → TimerWheel → Option TimerWheel
timer_add_abs cur_fg t abs_usecs tw =
    if ltb tw.timer_pos abs_usecs
    then (if tw.pending t.id
        then none
        else timer_insert cur_fg (record t { expires = abs_usecs }) tw)
    else none

unfoldable pub timer_add_for_next_tick : Option ℕ → Timer → TimerWheel → Option TimerWheel
timer_add_for_next_tick cur_fg t tw =
    timer_insert cur_fg (record t { expires = add64 tw.now_us min_delay_us }) tw
