-- ===== src/Blk/Scan/Decode.antt =====
-- What `bsys_io_write_flush` writes is what `init_cb` reads.
use ix.Base.{
  ℕ, zero, suc, ◌-◌, ◌/◌, ◌^◌, ◌≤◌, ◌<◌, ◌≡◌, refl, false, List, [], ◌∷◌, ◌++◌, arith, ◌==◌, length,
  length-append, length-replicate, replicate, drop, drop-append, ap, ◌∙◌, sym,
}
use native.Mathlib.Omega.{pow_step}
use mathlib.Core.List.{append_assoc}
use ix.Blk.{max_key_len}
use ix.Blk.Index.{Key, IndexEnt}
use ix.Blk.Device.{Device}
use ix.Blk.Io.{le_bytes, meta_bytes}
use ix.Blk.Scan.{from_le, cstr, ent_of}

from_le-le_bytes : (n x : ℕ) → x < 256 ^ n → from_le (le_bytes n x) ≡ x
from_le-le_bytes zero x small = omega arith
from_le-le_bytes (suc n) x small =
    let fits : x / 256 < 256 ^ n = omega (arith, pow_step 256 n) in
    omega (arith, from_le-le_bytes n (x / 256) fits)

-- no zero byte stands in a string
abbrev IsStr : Key → Type 0
IsStr [] = Unit
IsStr (b ∷ bs) = (0 < b) × IsStr bs

cstr-pad :
    (key : Key) (n : ℕ) (rest : List ℕ)
    → IsStr key
    → 0 < n
    → cstr ((key ++ replicate n 0) ++ rest) ≡ key
cstr-pad [] zero rest i some_pad = absurd (omega arith)
cstr-pad [] (suc n) rest i some_pad = refl
cstr-pad (b ∷ bs) n rest (pos, i) some_pad =
    let test : (b == 0) ≡ false = ground arith in
    rw test (ap (λ l. b ∷ l) (cstr-pad bs n rest i some_pad))

drop_exact : (n : ℕ) (xs ys : List ℕ) → length xs ≡ n → drop n (xs ++ ys) ≡ ys
drop_exact n xs ys e = ap (λ k. drop k (xs ++ ys)) (sym e) ∙ drop-append xs ys

-- what an entry's fields can hold
pub record IsEnt (e : IndexEnt) : Type 0 where
  pub magic : e.magic < 2 ^ 16
  pub key : IsStr e.key
  pub short : length e.key < max_key_len
  pub lba : e.lba < 2 ^ 32
  pub val_len : e.val_len < 2 ^ 64
  pub crc : e.crc < 2 ^ 32
  pub version : e.version < 2 ^ 16

-- the padded key
padded : Key → List ℕ
padded key = key ++ replicate (max_key_len - length key) 0

-- the fields behind the key
tail_of : IndexEnt → List ℕ → List ℕ
tail_of e rest =
    le_bytes 4 e.lba ++ le_bytes 8 e.val_len ++ le_bytes 4 e.crc ++ le_bytes 2 e.version ++ rest

layout :
    (e : IndexEnt) (rest : List ℕ)
    → meta_bytes e ++ rest ≡ le_bytes 2 e.magic ++ (padded e.key ++ tail_of e rest)
unfolding meta_bytes padded tail_of
layout e rest = simp append_assoc

ext :
    (a b : IndexEnt)
    → a.magic ≡ b.magic
    → a.key ≡ b.key
    → a.lba ≡ b.lba
    → a.val_len ≡ b.val_len
    → a.crc ≡ b.crc
    → a.version ≡ b.version
    → a ≡ b
ext a b p q r s t u =
    λ i. record { magic = p i; key = q i; lba = r i; val_len = s i; crc = t i; version = u i }

length-padded : (key : Key) → length key ≤ max_key_len → length (padded key) ≡ max_key_len
unfolding padded
length-padded key short = omega (
  arith,
  length-append key (replicate (max_key_len - length key) 0),
  length-replicate {A = ℕ} (max_key_len - length key) 0,
)

-- The metadata that is written is read back as it was, whatever bytes follow it: the fields that fit
-- their words, and a key that has no zero byte and fits its array with a terminator.
pub ent_of-meta_bytes : (e : IndexEnt) (rest : List ℕ) → IsEnt e → ent_of (meta_bytes e ++ rest) ≡ e
unfolding ent_of tail_of padded
ent_of-meta_bytes e rest i =
    let short = i.short in
    let size = length-padded e.key (omega arith) in
    rw (layout, drop_exact max_key_len (padded e.key) (tail_of e rest) size)
      (ext _ e (from_le-le_bytes 2 e.magic i.magic)
        (cstr-pad e.key (max_key_len - length e.key) (tail_of e rest) i.key (omega arith))
        (from_le-le_bytes 4 e.lba i.lba) (from_le-le_bytes 8 e.val_len i.val_len)
        (from_le-le_bytes 4 e.crc i.crc) (from_le-le_bytes 2 e.version i.version))
