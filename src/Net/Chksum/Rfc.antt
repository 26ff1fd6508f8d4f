-- ===== src/Net/Chksum/Rfc.antt =====
-- inc/asm/chksum.h: the sum with carries of whole machine words is the checksum of RFC 1071.
use ix.Base.{ℕ, ◌+◌, ◌-◌, ◌*◌, ◌/◌, ◌%◌, ◌<◌, List, [], ◌∷◌, ◌≡◌, refl, ap, sym, ◌∙◌, arith, length}
use mathlib.Core.Path.{subst}
use ix.Net.Chksum.{
  chksum_internet, sum_8, sum_4, sum_2, sum_1, adc, add_around, w64, le16, le32, le64,
}
use ix.Net.Chksum.Fold.{
  ones, Same, IsSum, less-Same, Same-trans, carry-Same, add_around-IsSum, add-less-Same,
  add_word-IsSum, fold_lem,
}

-- RFC 1071: the sum of the words of 16 bits, an odd last byte by itself
unfoldable pub sum16 : List ℕ → ℕ
sum16 [] = 0
sum16 (a ∷ []) = a
sum16 (a ∷ b ∷ buf) = a + 256 * b + sum16 buf

abbrev pub rfc1071 : List ℕ → ℕ
rfc1071 buf = 65535 - ones (sum16 buf)

unfoldable pub AllBytes : List ℕ → Type 0
AllBytes [] = Unit
AllBytes (b ∷ buf) = (b < 256) × AllBytes buf

sum_1_lem :
    (y s : ℕ) (buf : List ℕ)
    → length buf < 2
    → AllBytes buf
    → IsSum s y
    → IsSum (sum_1 s buf) (y + sum16 buf)
unfolding sum_1 sum16 AllBytes
sum_1_lem y s [] h b e = subst (IsSum s) (omega arith) e
sum_1_lem y s (a ∷ []) h b e = add_around-IsSum y s a (let p = b.0 in omega arith) e
sum_1_lem y s (a ∷ c ∷ buf) h b e = absurd (omega arith)

sum_2_lem :
    (y s : ℕ) (buf : List ℕ)
    → length buf < 4
    → AllBytes buf
    → IsSum s y
    → IsSum (sum_2 s buf) (y + sum16 buf)
unfolding sum_2 sum16 AllBytes
sum_2_lem y s [] h b e = sum_1_lem y s [] (omega arith) b e
sum_2_lem y s (a ∷ []) h b e = sum_1_lem y s (a ∷ []) (omega arith) b e
sum_2_lem y s (a ∷ c ∷ buf) h b e =
    let t = add_around-IsSum y s (le16 a c) (let p = b.0 in let q = b.1.0 in omega arith) e in
    subst (IsSum (sum_1 (add_around w64 s (le16 a c)) buf)) (omega arith)
      (sum_1_lem (y + le16 a c) (add_around w64 s (le16 a c)) buf (omega arith) b.1.1 t)

sum_4_lem :
    (y s : ℕ) (buf : List ℕ)
    → length buf < 8
    → AllBytes buf
    → IsSum s y
    → IsSum (sum_4 s buf) (y + sum16 buf)
unfolding sum_4 sum16 AllBytes
sum_4_lem y s [] h b e = sum_2_lem y s [] (omega arith) b e
sum_4_lem y s (a1 ∷ []) h b e = sum_2_lem y s (a1 ∷ []) (omega arith) b e
sum_4_lem y s (a1 ∷ a2 ∷ []) h b e = sum_2_lem y s (a1 ∷ a2 ∷ []) (omega arith) b e
sum_4_lem y s (a1 ∷ a2 ∷ a3 ∷ []) h b e = sum_2_lem y s (a1 ∷ a2 ∷ a3 ∷ []) (omega arith) b e
sum_4_lem y s (a1 ∷ a2 ∷ a3 ∷ a4 ∷ buf) h b e =
    let p1 = b.0 in
    let p2 = b.1.0 in
    let p3 = b.1.1.0 in
    let p4 = b.1.1.1.0 in
    let word = le32 a1 a2 a3 a4 in
    let sum = le16 a1 a2 + le16 a3 a4 in
    let t : IsSum (add_around w64 s word) (y + sum) =
      add_word-IsSum (le16 a3 a4) y s word sum (omega arith) (omega arith) (λ z. omega arith) e in
    subst (IsSum (sum_2 (add_around w64 s word) buf)) (omega arith)
      (sum_2_lem (y + sum) (add_around w64 s word) buf (omega arith) b.1.1.1.1 t)

-- The sum and the bytes that the loop leaves stand for `y`, and fewer than 8 bytes are left.
record Summed (r : ℕ × List ℕ) (y : ℕ) : Type 0 where
  part : ℕ
  summed : IsSum r.0 part
  total : part + sum16 r.1 ≡ y
  short : length r.1 < 8
  bytes : AllBytes r.1

-- One turn of the loop: the carry that it leaves is part of what it has summed.
turn :
    (m y s cf a a' : ℕ)
    → a < w64
    → a ≡ a' + 65535 * m
    → (a' ≡ 0 → a ≡ 0)
    → s + cf < w64
    → Same (s + cf) y
    → let t = adc w64 cf s a in (t.0 + t.1 < w64) × Same (t.0 + t.1) (y + a')
turn m y s cf a a' ha e z h same = (
  fits s cf a h ha,
  Same-trans _ (y + a) _
      (subst (λ n. Same (n % w64 + n / w64) (y + a)) (swap s cf a)
        (carry-Same y (s + cf) a h ha same))
      (add-less-Same m y a a' e z),
)
  where
    fits : (s cf a : ℕ) → s + cf < w64 → a < w64 → (s + a + cf) % w64 + (s + a + cf) / w64 < w64
    fits s cf a h ha = omega arith

    swap : (s cf a : ℕ) → s + cf + a ≡ s + a + cf
    swap s cf a = omega arith

leaf :
    (y s cf : ℕ) (buf : List ℕ)
    → length buf < 8
    → AllBytes buf
    → s + cf < w64
    → Same (s + cf) y
    → Summed ((s + cf) % w64, buf) (y + sum16 buf)
leaf y s cf buf h b small e = record {
  part = y;
  summed = (below s cf, subst (λ n. Same n y) (sym (same_mod s cf small)) e);
  total = refl;
  short = h;
  bytes = b;
}
  where
    below : (s cf : ℕ) → (s + cf) % w64 < w64
    below s cf = omega arith

    same_mod : (s cf : ℕ) → s + cf < w64 → (s + cf) % w64 ≡ s + cf
    same_mod s cf h = omega arith

sum_8_lem :
    (y s cf : ℕ) (buf : List ℕ)
    → AllBytes buf
    → s + cf < w64
    → Same (s + cf) y
    → Summed (sum_8 s cf buf) (y + sum16 buf)
unfolding sum_8 sum16 AllBytes
sum_8_lem y s cf [] b h e = leaf y s cf [] (omega arith) b h e
sum_8_lem y s cf (a1 ∷ []) b h e = leaf y s cf (a1 ∷ []) (omega arith) b h e
sum_8_lem y s cf (a1 ∷ a2 ∷ []) b h e = leaf y s cf (a1 ∷ a2 ∷ []) (omega arith) b h e
sum_8_lem y s cf (a1 ∷ a2 ∷ a3 ∷ []) b h e = leaf y s cf (a1 ∷ a2 ∷ a3 ∷ []) (omega arith) b h e
sum_8_lem y s cf (a1 ∷ a2 ∷ a3 ∷ a4 ∷ []) b h e =
    leaf y s cf (a1 ∷ a2 ∷ a3 ∷ a4 ∷ []) (omega arith) b h e
sum_8_lem y s cf (a1 ∷ a2 ∷ a3 ∷ a4 ∷ a5 ∷ []) b h e =
    leaf y s cf (a1 ∷ a2 ∷ a3 ∷ a4 ∷ a5 ∷ []) (omega arith) b h e
sum_8_lem y s cf (a1 ∷ a2 ∷ a3 ∷ a4 ∷ a5 ∷ a6 ∷ []) b h e =
    leaf y s cf (a1 ∷ a2 ∷ a3 ∷ a4 ∷ a5 ∷ a6 ∷ []) (omega arith) b h e
sum_8_lem y s cf (a1 ∷ a2 ∷ a3 ∷ a4 ∷ a5 ∷ a6 ∷ a7 ∷ []) b h e =
    leaf y s cf (a1 ∷ a2 ∷ a3 ∷ a4 ∷ a5 ∷ a6 ∷ a7 ∷ []) (omega arith) b h e
sum_8_lem y s cf (a1 ∷ a2 ∷ a3 ∷ a4 ∷ a5 ∷ a6 ∷ a7 ∷ a8 ∷ buf) b h e =
    let bs = b.1.1.1.1 in
    let p1 = b.0 in
    let p2 = b.1.0 in
    let p3 = b.1.1.0 in
    let p4 = b.1.1.1.0 in
    let p5 = bs.0 in
    let p6 = bs.1.0 in
    let p7 = bs.1.1.0 in
    let p8 = bs.1.1.1.0 in
    let word = le64 a1 a2 a3 a4 a5 a6 a7 a8 in
    let sum = le16 a1 a2 + le16 a3 a4 + le16 a5 a6 + le16 a7 a8 in
    let t = adc w64 cf s word in
    let e8 =
      turn (le16 a3 a4 + 65537 * le16 a5 a6 + 4295032833 * le16 a7 a8) y s cf word sum (omega arith)
        (omega arith) (λ z. omega arith) h e in
    subst (Summed (sum_8 t.0 t.1 buf)) (omega arith)
      (sum_8_lem (y + sum) t.0 t.1 buf bs.1.1.1.1 e8.0 e8.1)

-- The whole checksum: for the bytes of any buffer, the sum with carries that the processor forms
-- word by word is the checksum of RFC 1071.
pub chksum_internet_lem : (buf : List ℕ) → AllBytes buf → chksum_internet buf ≡ rfc1071 buf
unfolding chksum_internet
chksum_internet_lem buf b =
    let s = sum_8_lem 0 0 0 buf b (omega arith) (less-Same 0 (0 + 0) 0 refl (λ z. refl)) in
    let r = sum_8 0 0 buf in
    let t = sum_4_lem s.part r.0 r.1 s.short s.bytes s.summed in
    ap (λ n. 65535 - n)
      (fold_lem (sum_4 r.0 r.1) (sum16 buf)
        (subst (IsSum (sum_4 r.0 r.1)) (s.total ∙ zero_add (sum16 buf)) t))
  where
    zero_add : (n : ℕ) → 0 + n ≡ n
    zero_add n = omega arith
