-- ===== src/Timer/Deadline.antt =====
-- `timer_deadline`: a sleep of the length that it gives ends before the first wheel is due.
use ix.Base.{
  ℕ, zero, suc, ◌+◌, ◌-◌, ◌*◌, ◌/◌, ◌%◌, ◌^◌, ◌≤◌, ◌<◌, ◌≡◌, refl, false, some, List, arith, ltb,
  ◌==◌, if◌then◌else◌, Bool-cases, inl, inr, add64,
}
use ix.Timer.{TimerWheel, Timer, bucket_us, wheel_size}
use ix.Timer.Loop.{is_empty, first_full, deadline_from, timer_deadline}

first_full-le :
    (wheel : ℕ → List Timer) (n start k : ℕ)
    → start ≤ k
    → k < start + n
    → is_empty (wheel (k % wheel_size)) ≡ false
    → (b : ℕ) × (first_full wheel start n ≡ some b) × (b ≤ k)
unfolding first_full
first_full-le wheel zero start k low high full = absurd (omega arith)
first_full-le wheel (suc n) start k low high full =
    elim (Bool-cases (is_empty (wheel (start % wheel_size)))) [
      | inr here ↦ rw here (start, refl, low)
      | inl not_here ↦
          let next : start + 1 ≤ k = ground arith in
          rw not_here (first_full-le wheel n (start + 1) k next (omega arith) full)
    ]

first_wheel :
    (n future_us k : ℕ) (tw : TimerWheel)
    → tw.now_us / bucket_us 0 < k
    → k ≤ tw.now_us / bucket_us 0 + wheel_size
    → k ≤ future_us / bucket_us 0
    → is_empty (tw.wheels 0 (k % wheel_size)) ≡ false
    → (b : ℕ) × (deadline_from (suc n) 0 future_us tw ≡ some (b * bucket_us 0)) × (b ≤ k)
unfolding deadline_from
first_wheel n future_us k tw behind near within full =
    let start = tw.now_us / bucket_us 0 in
    let last = future_us / bucket_us 0 in
    let stop = if ltb last (start + wheel_size) then last else start + wheel_size in
    let reached : k ≤ stop = ground arith in
    let (b, found, le) =
      first_full-le (tw.wheels 0) (stop - start) (start + 1) k (omega arith) (omega arith) full in
    let test : (start == last) ≡ false = ground arith in (b, rw (test, found) refl, le)

-- Where bucket `k` of the first wheel, counted from time 0, holds a timer, lies behind the bucket
-- of the wheel's time, no more than 256 buckets, and begins within the given time, the deadline
-- does not lie behind the beginning of that bucket.
pub timer_deadline-le :
    (timer_now max_deadline_us k : ℕ) (tw : TimerWheel)
    → tw.now_us + max_deadline_us < 2 ^ 64
    → tw.now_us / bucket_us 0 < k
    → k ≤ tw.now_us / bucket_us 0 + wheel_size
    → k * bucket_us 0 ≤ tw.now_us + max_deadline_us
    → is_empty (tw.wheels 0 (k % wheel_size)) ≡ false
    → timer_deadline timer_now max_deadline_us tw ≤ k * bucket_us 0 - timer_now
unfolding timer_deadline
timer_deadline-le timer_now max_deadline_us k tw small behind near within full =
    let future : add64 tw.now_us max_deadline_us ≡ tw.now_us + max_deadline_us = omega arith in
    let (b, found, le) =
      first_wheel 2 (tw.now_us + max_deadline_us) k tw behind near (omega arith) full in
    rw (timer_deadline, future, found) (ground arith)
