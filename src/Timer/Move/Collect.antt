-- ===== src/Timer/Move/Collect.antt =====
-- `timer_collect_fgs`: what it takes and what it leaves.
use ix.Base.{
  ℕ, zero, suc, ◌+◌, ◌≤◌, ◌<◌, ◌≡◌, refl, Bool, true, false, ◌&&◌, List, [], ◌∷◌, arith, ltb, leb,
  ◌==◌, if◌then◌else◌, length, Bool-cases, inl, inr, ap, ◌∙◌, sym,
}
use ix.Timer.{Timer, TimerWheel, set_bucket, wheel_count, wheel_size}
use ix.Timer.Move.{collect_bucket, collect_from, collect_wheel, is_wanted, timer_collect_fgs}

-- the timers that are of none of the groups
abbrev pub others : (ℕ → Bool) → List Timer → List Timer
others fg_vector [] = []
others fg_vector (t ∷ ts) =
    if is_wanted fg_vector t then others fg_vector ts else t ∷ others fg_vector ts

abbrev wanted : (ℕ → Bool) → List Timer → List Timer
wanted fg_vector [] = []
wanted fg_vector (t ∷ ts) =
    if is_wanted fg_vector t then t ∷ wanted fg_vector ts else wanted fg_vector ts

-- how many timers of the groups `n` buckets from `pos` on hold
pub wanted_in : (ℕ → Bool) → (ℕ → List Timer) → ℕ → ℕ → ℕ
wanted_in fg_vector wheel pos zero = 0
wanted_in fg_vector wheel pos (suc n) =
    length (wanted fg_vector (wheel pos)) + wanted_in fg_vector wheel (pos + 1) n

collect_bucket-parts :
    (fg_vector : ℕ → Bool) (ts list : List Timer)
    → ((collect_bucket fg_vector ts list).0 ≡ others fg_vector ts)
      × (length (collect_bucket fg_vector ts list).1 ≡ length (wanted fg_vector ts) + length list)
unfolding collect_bucket
collect_bucket-parts fg_vector [] list = (refl, omega arith)
collect_bucket-parts fg_vector (t ∷ ts) list = elim (Bool-cases (is_wanted fg_vector t)) [
  | inl hit ↦
      let (a, b) = collect_bucket-parts fg_vector ts (t ∷ list) in rw hit (a, omega (arith, b))
  | inr not_it ↦
      let (a, b) = collect_bucket-parts fg_vector ts list in rw not_it (ap (λ l. t ∷ l) a, b)
]

-- where the loop over the positions has been
abbrev is_between : ℕ → ℕ → ℕ → Bool
is_between pos n o = leb pos o && ltb o (pos + n)

wanted_in-same :
    (fg_vector : ℕ → Bool) (w w' : ℕ → List Timer) (pos n : ℕ)
    → ((o : ℕ) → pos ≤ o → w o ≡ w' o)
    → wanted_in fg_vector w pos n ≡ wanted_in fg_vector w' pos n
unfolding wanted_in
wanted_in-same fg_vector w w' pos zero same = refl
wanted_in-same fg_vector w w' pos (suc n) same =
    let here = ap (λ l. length (wanted fg_vector l)) (same pos (omega arith)) in
    let rest = wanted_in-same fg_vector w w' (pos + 1) n (λ o le. same o (omega arith)) in
    omega (arith, here, rest)

collect_wheel-parts :
    (fg_vector : ℕ → Bool) (idx pos n : ℕ) (tw : TimerWheel) (list : List Timer)
    → ((i o : ℕ)
        → (collect_wheel fg_vector idx pos n tw list).0.wheels i o ≡ (
            if i == idx && is_between pos n o
            then others fg_vector (tw.wheels i o)
            else tw.wheels i o))
      × (length (collect_wheel fg_vector idx pos n tw list).1
          ≡ wanted_in fg_vector (tw.wheels idx) pos n + length list)
unfolding collect_wheel wanted_in
collect_wheel-parts fg_vector idx pos zero tw list = (
  λ i o. let out : (i == idx && is_between pos 0 o) ≡ false = ground arith in rw out refl,
  omega arith,
)
collect_wheel-parts fg_vector idx pos (suc n) tw list =
    let bucket = collect_bucket fg_vector (tw.wheels idx pos) list in
    let parts = collect_bucket-parts fg_vector (tw.wheels idx pos) list in
    let tw' : TimerWheel = record tw { wheels = set_bucket tw.wheels idx pos bucket.0 } in
    let rest = collect_wheel-parts fg_vector idx (pos + 1) n tw' bucket.1 in
    (
      λ i o. rest.0 i o ∙ elim (Bool-cases (i == idx && o == pos)) [
        | inl here ↦
            let inside : (i == idx && is_between pos (suc n) o) ≡ true = ground arith in
            let outside : (i == idx && is_between (pos + 1) n o) ≡ false = ground arith in
            let same_i : i ≡ idx = ground arith in
            let same_o : o ≡ pos = ground arith in
            rw (here, inside, outside)
              (parts.0
                ∙ ap (λ k. others fg_vector (tw.wheels k pos)) (sym same_i)
                ∙ ap (λ k. others fg_vector (tw.wheels i k)) (sym same_o))
        | inr away ↦
            let alike : (i == idx && is_between pos (suc n) o)
                ≡ (i == idx && is_between (pos + 1) n o) =
              ground arith in
            rw (away, alike) refl
      ],
      omega (
        arith,
        rest.1,
        parts.1,
        wanted_in-same fg_vector (tw'.wheels idx) (tw.wheels idx) (pos + 1) n (λ o le.
            let no_hit : (idx == idx && o == pos) ≡ false = ground arith in rw no_hit refl),
      ),
    )

abbrev pub wanted_from : (ℕ → Bool) → TimerWheel → ℕ → ℕ → ℕ
wanted_from fg_vector tw idx zero = 0
wanted_from fg_vector tw idx (suc n) =
    wanted_in fg_vector (tw.wheels idx) 0 wheel_size + wanted_from fg_vector tw (idx + 1) n

wanted_from-same :
    (fg_vector : ℕ → Bool) (tw tw' : TimerWheel) (idx n : ℕ)
    → ((i o : ℕ) → idx ≤ i → tw.wheels i o ≡ tw'.wheels i o)
    → wanted_from fg_vector tw idx n ≡ wanted_from fg_vector tw' idx n
wanted_from-same fg_vector tw tw' idx zero same = refl
wanted_from-same fg_vector tw tw' idx (suc n) same =
    let here =
      wanted_in-same fg_vector (tw.wheels idx) (tw'.wheels idx) 0 wheel_size
        (λ o le. same idx o (omega arith)) in
    let rest = wanted_from-same fg_vector tw tw' (idx + 1) n (λ i o le. same i o (omega arith)) in
    omega (arith, here, rest)

collect_from-parts :
    (fg_vector : ℕ → Bool) (idx n : ℕ) (tw : TimerWheel) (list : List Timer)
    → ((i o : ℕ)
        → (collect_from fg_vector idx n tw list).0.wheels i o ≡ (
            if is_between idx n i && is_between 0 wheel_size o
            then others fg_vector (tw.wheels i o)
            else tw.wheels i o))
      × (length (collect_from fg_vector idx n tw list).1
          ≡ wanted_from fg_vector tw idx n + length list)
unfolding collect_from
collect_from-parts fg_vector idx zero tw list = (
  λ i o.
      let out : (is_between idx 0 i && is_between 0 wheel_size o) ≡ false = ground arith in
      rw out refl,
  omega arith,
)
collect_from-parts fg_vector idx (suc n) tw list =
    let parts = collect_wheel-parts fg_vector idx 0 wheel_size tw list in
    let (tw', list') = collect_wheel fg_vector idx 0 wheel_size tw list in
    let rest = collect_from-parts fg_vector (idx + 1) n tw' list' in
    (
      λ i o. rest.0 i o ∙ elim (Bool-cases (i == idx && is_between 0 wheel_size o)) [
        | inl here ↦
            let inside : (is_between idx (suc n) i && is_between 0 wheel_size o) ≡ true =
              ground arith in
            let outside : (is_between (idx + 1) n i && is_between 0 wheel_size o) ≡ false =
              ground arith in
            rw (inside, outside) (parts.0 i o ∙ rw here refl)
        | inr away ↦
            let alike : (is_between idx (suc n) i && is_between 0 wheel_size o)
                ≡ (is_between (idx + 1) n i && is_between 0 wheel_size o) =
              ground arith in
            let same : tw'.wheels i o ≡ tw.wheels i o = parts.0 i o ∙ rw away refl in
            rw (alike, same) refl
      ],
      omega (
        arith,
        rest.1,
        parts.1,
        wanted_from-same fg_vector tw' tw (idx + 1) n (λ i o le.
            let other : (i == idx && is_between 0 wheel_size o) ≡ false = ground arith in
            parts.0 i o ∙ rw other refl),
      ),
    )

pub timer_collect_fgs_lem :
    (fg_vector : ℕ → Bool) (tw : TimerWheel) (list : List Timer) (i o : ℕ)
    → i < wheel_count
    → o < wheel_size
    → ((timer_collect_fgs fg_vector tw list).0.0.wheels i o ≡ others fg_vector (tw.wheels i o))
      × (length (timer_collect_fgs fg_vector tw list).0.1
          ≡ wanted_from fg_vector tw 0 wheel_count + length list)
      × ((timer_collect_fgs fg_vector tw list).1.1 ≡ wanted_from fg_vector tw 0 wheel_count)
unfolding timer_collect_fgs
timer_collect_fgs_lem fg_vector tw list i o small small' =
    let parts = collect_from-parts fg_vector 0 wheel_count tw list in
    let inside : (is_between 0 wheel_count i && is_between 0 wheel_size o) ≡ true = ground arith in
    (parts.0 i o ∙ rw inside refl, parts.1, omega (arith, parts.1))
