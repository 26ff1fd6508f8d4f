-- ===== src/Net/Chksum/Fold.antt =====
-- inc/asm/chksum.h: sums modulo 65535, with the carries put back in.
use ix.Base.{ℕ, zero, suc, ◌+◌, ◌-◌, ◌*◌, ◌/◌, ◌%◌, ◌<◌, ◌≡◌, refl, ap, sym, ◌∙◌, arith}
use mathlib.Core.Path.{subst}
use ix.Net.Chksum.{fold, add_around, w64, w32, w16}

-- the one's complement value of a sum, where 0 is a sum of nothing else
abbrev pub ones : ℕ → ℕ
ones zero = 0
ones (suc n) = 1 + n % 65535

-- The two sums differ by multiples of 65535, and are 0 together.
pub record Same (x y : ℕ) : Type 0 where
  pub up : ℕ
  pub down : ℕ
  pub same : x + 65535 * up ≡ y + 65535 * down
  pub zero_r : x ≡ 0 → y ≡ 0
  pub zero_l : y ≡ 0 → x ≡ 0

-- a word of 64 bits that stands for a sum
abbrev pub IsSum : ℕ → ℕ → Type 0
IsSum s y = (s < w64) × Same s y

-- One carry of a sum of two words, put back in: 2 ^ 64 ≡ 1 modulo 65535.
pub carry-Same :
    (y v a : ℕ) → v < w64 → a < w64 → Same v y → Same ((v + a) % w64 + (v + a) / w64) (y + a)
carry-Same y v a hv ha e = record {
  up = e.up + 281479271743489 * ((v + a) / w64);
  down = e.down;
  same = carried y v a e.up e.down e.same;
  zero_r = λ z. both_zero y v a e.zero_r z;
  zero_l = λ z. none_left y v a e.zero_l z;
}
  where
    carried :
        (y v a k l : ℕ)
        → v + 65535 * k ≡ y + 65535 * l
        → (v + a) % w64 + (v + a) / w64 + 65535 * (k + 281479271743489 * ((v + a) / w64))
          ≡ y + a + 65535 * l
    carried y v a k l h = omega arith

    both_zero : (y v a : ℕ) → (v ≡ 0 → y ≡ 0) → (v + a) % w64 + (v + a) / w64 ≡ 0 → y + a ≡ 0
    both_zero y v a h z =
        let hv : v ≡ 0 = omega arith in let ha : a ≡ 0 = omega arith in let hy = h hv in omega arith

    none_left : (y v a : ℕ) → (y ≡ 0 → v ≡ 0) → y + a ≡ 0 → (v + a) % w64 + (v + a) / w64 ≡ 0
    none_left y v a h z =
        let hy : y ≡ 0 = omega arith in
        let hv = h hy in let ha : a ≡ 0 = omega arith in rw hv (rw ha refl)

Same-ones : (w y : ℕ) → w < w16 → Same w y → w ≡ ones y
Same-ones w zero h e = e.zero_l refl
Same-ones zero (suc n) h e = let z = e.zero_r refl in absurd (omega arith)
Same-ones (suc w) (suc n) h e = let p = e.same in let k = e.up in let l = e.down in omega arith

pub Same-trans : (x y z : ℕ) → Same x y → Same y z → Same x z
Same-trans x y z p q = record {
  up = p.up + q.up;
  down = p.down + q.down;
  same = chained x y z p.up p.down q.up q.down p.same q.same;
  zero_r = λ e. q.zero_r (p.zero_r e);
  zero_l = λ e. p.zero_l (q.zero_l e);
}
  where
    chained :
        (x y z a b c d : ℕ)
        → x + 65535 * a ≡ y + 65535 * b
        → y + 65535 * c ≡ z + 65535 * d
        → x + 65535 * (a + c) ≡ z + 65535 * (b + d)
    chained x y z a b c d p q = omega arith

-- A multiple of 65535 that is taken off leaves the same sum, if it does not make it 0.
pub less-Same : (m x y : ℕ) → x ≡ y + 65535 * m → (y ≡ 0 → x ≡ 0) → Same x y
less-Same m x y e h = record {
  up = 0;
  down = m;
  same = plus x y m e;
  zero_r = λ z. all_zero x y m e z;
  zero_l = h;
}
  where
    plus : (x y m : ℕ) → x ≡ y + 65535 * m → x + 65535 * 0 ≡ y + 65535 * m
    plus x y m e = omega arith

    all_zero : (x y m : ℕ) → x ≡ y + 65535 * m → x ≡ 0 → y ≡ 0
    all_zero x y m e z = omega arith

pub add_around-IsSum : (y v a : ℕ) → a < w64 → IsSum v y → IsSum (add_around w64 v a) (y + a)
add_around-IsSum y v a ha s =
    (small v a, subst (λ n. Same n (y + a)) (sym (around v a s.0 ha)) (carry-Same y v a s.0 ha s.1))
  where
    around : (v a : ℕ) → v < w64 → a < w64 → add_around w64 v a ≡ (v + a) % w64 + (v + a) / w64
    around v a hv ha = omega arith

    small : (v a : ℕ) → add_around w64 v a < w64
    small v a = omega arith

pub add-less-Same : (m y a a' : ℕ) → a ≡ a' + 65535 * m → (a' ≡ 0 → a ≡ 0) → Same (y + a) (y + a')
add-less-Same m y a a' e h = less-Same m (y + a) (y + a') (longer y a a' m e) (gone y a a' h)
  where
    longer : (y a a' m : ℕ) → a ≡ a' + 65535 * m → y + a ≡ y + a' + 65535 * m
    longer y a a' m e = omega arith

    gone : (y a a' : ℕ) → (a' ≡ 0 → a ≡ 0) → y + a' ≡ 0 → y + a ≡ 0
    gone y a a' h z = let za : a ≡ 0 = h (omega arith) in omega arith

-- Adding a machine word stands for adding its 16-bit words.
pub add_word-IsSum :
    (m y v a a' : ℕ)
    → a < w64
    → a ≡ a' + 65535 * m
    → (a' ≡ 0 → a ≡ 0)
    → IsSum v y
    → IsSum (add_around w64 v a) (y + a')
add_word-IsSum m y v a a' ha e h s =
    let t = add_around-IsSum y v a ha s in
    (t.0, Same-trans _ (y + a) _ t.1 (add-less-Same m y a a' e h))

fold-32 : (s : ℕ) → s < w64 → Same s (add_around w32 (s / w32) (s % w32))
fold-32 s h =
    less-Same (65537 * (s / w32 + (s / w32 + s % w32) / w32)) _ _ (omega arith) (λ z. omega arith)

fold-16 : (s : ℕ) → s < w32 → Same s (add_around w16 (s / w16) (s % w16))
fold-16 s h = less-Same (s / w16 + (s / w16 + s % w16) / w16) _ _ (omega arith) (λ z. omega arith)

Same-sym : (x y : ℕ) → Same x y → Same y x
Same-sym x y e = record {
  up = e.down;
  down = e.up;
  same = sym e.same;
  zero_r = e.zero_l;
  zero_l = e.zero_r;
}

pub fold_lem : (s y : ℕ) → IsSum s y → fold s ≡ ones y
unfolding fold
fold_lem s y h =
    let k = add_around w32 (s / w32) (s % w32) in
    let small : k < w32 = omega arith in
    let w = add_around w16 (k / w16) (k % w16) in
    let short : w < w16 = omega arith in
    let sw = Same-trans s k w (fold-32 s h.0) (fold-16 k small) in
    Same-ones w y short (Same-trans w s y (Same-sym s w sw) h.1)

-- A sum and its complement verify.
pub ones_complement : (t : ℕ) → 65535 - ones (t + (65535 - ones t)) ≡ 0
ones_complement zero = refl
ones_complement (suc n) =
    ap (λ m. 65535 - m) (ones_pos (suc n + (65535 - (1 + n % 65535))) (omega arith)) ∙ full n
  where
    pred : (m : ℕ) → m ≡ suc m - 1
    pred m = omega arith

    ones_pos : (m : ℕ) → 0 < m → ones m ≡ 1 + (m - 1) % 65535
    ones_pos zero h = absurd (omega arith)
    ones_pos (suc m) h = ap (λ k. 1 + k % 65535) (pred m)

    full : (n : ℕ) → 65535 - (1 + (suc n + (65535 - (1 + n % 65535)) - 1) % 65535) ≡ 0
    full n = omega arith
