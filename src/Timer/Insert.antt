-- ===== src/Timer/Insert.antt =====
-- `timer_insert`: which bucket a timer goes to, and at which tick of `timer_run` that is run.
use ix.Base.{
  ℕ, zero, suc, ◌+◌, ◌-◌, ◌*◌, ◌/◌, ◌^◌, ◌≤◌, ◌<◌, ◌≡◌, refl, true, false, Option, none, some,
  arith, leb, ltb, ◌==◌, add64, sub64, Bool-cases, inl, inr,
}
use native.Mathlib.Nat.{pow-le-pow_right}
use native.Mathlib.Omega.{pow_step}
use ix.Timer.{
  Timer, TimerWheel, clz, wheel_index, bucket_us, wheel_count, wheel_size, min_delay_us,
  max_delay_us, insert_delay, link, timer_insert, timer_add,
}

pub pow_le : (a b : ℕ) → a ≤ b → 2 ^ a ≤ 2 ^ b
pow_le a b le = pow-le-pow_right (omega arith) le

-- a power of two that is below another has the lower exponent
pow_lt_inv : (a b : ℕ) → 2 ^ a < 2 ^ b → a < b
pow_lt_inv a b lt = elim (Bool-cases (leb b a)) [
  | inl le ↦ absurd (omega (arith, pow_le b a (ground arith)))
  | inr gt ↦ ground arith
]

pow_add8 : (a : ℕ) → 2 ^ (8 + a) ≡ 2 ^ a * 256
pow_add8 a = grind (
  arith,
  pow_step 2 (7 + a),
  pow_step 2 (6 + a),
  pow_step 2 (5 + a),
  pow_step 2 (4 + a),
  pow_step 2 (3 + a),
  pow_step 2 (2 + a),
  pow_step 2 (1 + a),
  pow_step 2 a,
)

-- `clz` counts the bits above the highest one.
clz-bits :
    (n x : ℕ) → 0 < x → x < 2 ^ n → (t : ℕ) × (clz n x + suc t ≡ n) × (2 ^ t ≤ x) × (x < 2 ^ suc t)
unfolding clz
clz-bits zero x pos small = absurd (omega arith)
clz-bits (suc n) x pos small = elim (Bool-cases (leb (2 ^ n) x)) [
  | inl big ↦ rw big (n, omega arith, ground arith, small)
  | inr low ↦
      let (t, a, b, c) = clz-bits n x pos (ground arith) in rw low (t, omega (arith, a), b, c)
]

-- `index` is known from the highest bit of the delay.
index_of_top :
    (d t : ℕ)
    → 2 ^ t ≤ d
    → d < 2 ^ suc t
    → min_delay_us ≤ d
    → d < max_delay_us
    → (4 ≤ t)
      × ((t - 4) / 8 < wheel_count)
      × (bucket_us ((t - 4) / 8) ≤ d)
      × (d < bucket_us ((t - 4) / 8) * wheel_size)
index_of_top d t above below low high =
    let at_least : 4 < suc t = pow_lt_inv 4 (suc t) (omega arith) in
    let at_most : t < 28 = pow_lt_inv t 28 (omega arith) in
    (
      omega arith,
      omega arith,
      omega (arith, pow_le ((t - 4) / 8 * 8 + 4) t (omega arith)),
      omega (
        arith,
        pow_le (suc t) (8 + ((t - 4) / 8 * 8 + 4)) (omega arith),
        pow_add8 ((t - 4) / 8 * 8 + 4),
      ),
    )

-- A delay of less than 2 ^ 28 us has one of the three wheels.
wheel_index-IsRange :
    (d : ℕ)
    → min_delay_us ≤ d
    → d < max_delay_us
    → (idx : ℕ) × (wheel_index d ≡ some idx)
      × (idx < wheel_count)
      × (bucket_us idx ≤ d)
      × (d < bucket_us idx * wheel_size)
unfolding wheel_index
wheel_index-IsRange d low high =
    let (t, counted, above, below) = clz-bits 64 d (omega arith) (omega arith) in
    let top : 63 - clz 64 d ≡ t = omega (arith, counted) in
    let (at_least, inside, from, to) = index_of_top d t above below low high in
    let test : leb 4 t ≡ true = ground arith in ((t - 4) / 8, rw (top, test) refl, inside, from, to)

delay_of :
    (now expires : ℕ)
    → now ≤ expires
    → expires + min_delay_us < 2 ^ 64
    → sub64 (add64 expires min_delay_us) now ≡ expires + min_delay_us - now
delay_of now expires later small = omega arith

pub timer_insert-links :
    (cur_fg : Option ℕ) (t : Timer) (tw : TimerWheel)
    → tw.now_us ≤ t.expires
    → t.expires + min_delay_us < 2 ^ 64
    → t.expires + min_delay_us - tw.now_us < max_delay_us
    → tw.pending t.id ≡ false
    → (idx : ℕ) × (timer_insert cur_fg t tw ≡ some (link cur_fg idx t tw))
      × (idx < wheel_count)
      × (bucket_us idx ≤ t.expires + min_delay_us - tw.now_us)
      × (t.expires + min_delay_us - tw.now_us < bucket_us idx * wheel_size)
unfolding timer_insert
timer_insert-links cur_fg t tw later small near free =
    let (idx, found, inside, from, to) =
      wheel_index-IsRange (t.expires + min_delay_us - tw.now_us) (omega arith) near in
    let test : ltb idx wheel_count ≡ true = ground arith in
    (idx, rw (delay_of tw.now_us t.expires later small, found, test, free) refl, inside, from, to)

index-too_far : (d : ℕ) → max_delay_us ≤ d → d < 2 ^ 36 → wheel_index d ≡ some wheel_count
unfolding wheel_index
index-too_far d low high =
    let (t, counted, above, below) = clz-bits 64 d (omega arith) (omega arith) in
    let top : 63 - clz 64 d ≡ t = omega (arith, counted) in
    let at_least : 28 < suc t = pow_lt_inv 28 (suc t) (omega arith) in
    let at_most : t < 36 = pow_lt_inv t 36 (omega arith) in
    let test : leb 4 t ≡ true = ground arith in
    let is_3 : (t - 4) / 8 ≡ 3 = omega arith in rw (top, test, is_3) refl

-- `timer_add` lets a delay pass that is below 2 ^ 28 us by no more than the rounding. Where the
-- cached time is less than a minute old, and the time is below 2 ^ 63 us, it then computes the
-- index of a fourth wheel, which is not there.
pub timer_add-fourth_wheel :
    (cur_fg : Option ℕ) (timer_now : ℕ) (t : Timer) (delay_us : ℕ) (tw : TimerWheel)
    → delay_us < max_delay_us
    → max_delay_us ≤ delay_us + min_delay_us
    → tw.now_us ≤ timer_now
    → timer_now < tw.now_us + 60000000
    → timer_now < 2 ^ 63
    → (wheel_index (insert_delay tw (record t { expires = add64 timer_now delay_us }))
        ≡ some wheel_count)
      × (timer_add cur_fg timer_now t delay_us tw ≡ none)
unfolding timer_add timer_insert
timer_add-fourth_wheel cur_fg timer_now t delay_us tw below above past recent small =
    let delay : insert_delay tw (record t { expires = add64 timer_now delay_us })
        ≡ timer_now + delay_us + min_delay_us - tw.now_us =
      omega arith in
    let index =
      index-too_far (timer_now + delay_us + min_delay_us - tw.now_us) (omega arith) (omega arith) in
    let test : (delay_us == 0) ≡ false = ground arith in
    let test' : leb max_delay_us delay_us ≡ false = ground arith in
    (rw delay index, rw (test, test', delay, index) refl)
