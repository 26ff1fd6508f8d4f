-- ===== src/Net/Chksum.antt =====
-- inc/asm/chksum.h: `chksum_internet`, as the processor computes it. Each clause that takes bytes off
-- the buffer is a turn of the loop or a test of the length that succeeds.
pub mod Fold
pub mod Rfc
use ix.Base.{
  ℕ, zero, suc, ◌+◌, ◌-◌, ◌*◌, ◌/◌, ◌%◌, ◌^◌, ◌≤◌, ◌<◌, ◌++◌, List, [], ◌∷◌, ◌≡◌, refl, ap, sym,
  ◌∙◌, arith, length,
}

-- `adc` on words below `w`: the sum and the carry
abbrev pub adc : ℕ → ℕ → ℕ → ℕ → ℕ × ℕ
adc w cf a b = ((a + b + cf) % w, (a + b + cf) / w)

-- `add` and then `adc $0`
abbrev pub add_around : ℕ → ℕ → ℕ → ℕ
add_around w a b = let t = adc w 0 a b in (t.0 + t.1) % w

abbrev pub w64 : ℕ
w64 = 2 ^ 64

abbrev pub w32 : ℕ
w32 = 2 ^ 32

abbrev pub w16 : ℕ
w16 = 2 ^ 16

-- the words that the processor loads: low byte first
abbrev pub le16 : ℕ → ℕ → ℕ
le16 a b = a + 256 * b

abbrev pub le32 : ℕ → ℕ → ℕ → ℕ → ℕ
le32 a b c d = le16 a b + w16 * le16 c d

abbrev pub le64 : ℕ → ℕ → ℕ → ℕ → ℕ → ℕ → ℕ → ℕ → ℕ
le64 a b c d e f g h = le32 a b c d + w32 * le32 e f g h

-- Label 1, and the `adcq` behind it: the sum of the words of 8 bytes, and the bytes left.
pub sum_8 : ℕ → ℕ → List ℕ → ℕ × List ℕ
sum_8 sum cf (a ∷ b ∷ c ∷ d ∷ e ∷ f ∷ g ∷ h ∷ buf) =
    let t = adc w64 cf sum (le64 a b c d e f g h) in sum_8 t.0 t.1 buf
sum_8 sum cf buf = ((sum + cf) % w64, buf)

-- labels 2, 3 and 4: the words of 4, of 2 and of 1 byte
pub sum_1 : ℕ → List ℕ → ℕ
sum_1 sum [] = sum
sum_1 sum (a ∷ buf) = add_around w64 sum a

pub sum_2 : ℕ → List ℕ → ℕ
sum_2 sum (a ∷ b ∷ buf) = sum_1 (add_around w64 sum (le16 a b)) buf
sum_2 sum buf = sum_1 sum buf

pub sum_4 : ℕ → List ℕ → ℕ
sum_4 sum (a ∷ b ∷ c ∷ d ∷ buf) = sum_2 (add_around w64 sum (le32 a b c d)) buf
sum_4 sum buf = sum_2 sum buf

-- label 5, up to the `not`
pub fold : ℕ → ℕ
fold sum = let k = add_around w32 (sum / w32) (sum % w32) in add_around w16 (k / w16) (k % w16)

-- `chksum_internet` of the bytes of a buffer
pub chksum_internet : List ℕ → ℕ
chksum_internet buf = let s = sum_8 0 0 buf in 65535 - fold (sum_4 s.0 s.1)
