-- ===== src/Blk/Io/Sizes.antt =====
-- How many bytes a batched write hands to the device, against the blocks that it is given.
use ix.Base.{
  ℕ, zero, suc, ◌+◌, ◌-◌, ◌*◌, ◌/◌, ◌%◌, ◌^◌, ◌≤◌, ◌≡◌, refl, Bool, ◌&&◌, [], ◌∷◌, arith, ltb, ◌==◌,
  if◌then◌else◌, length, length-concat, length-replicate, replicate, concat, ap,
}
use ix.Blk.{lba_size, meta_sz, data_sz, max_key_len, storage_size, calc_numblks}
use ix.Blk.Index.{IndexEnt}
use ix.Blk.Io.{Write, le_bytes, meta_bytes, numzeros, sg_of, write_blks}

length-le_bytes : (n x : ℕ) → length (le_bytes n x) ≡ n
length-le_bytes zero x = refl
length-le_bytes (suc n) x = ap suc (length-le_bytes n (x / 2 ^ 8))

pub length-meta_bytes :
    (e : IndexEnt) → length e.key ≤ max_key_len → length (meta_bytes e) ≡ meta_sz
unfolding meta_bytes
length-meta_bytes e fits = omega (
  arith,
  length-concat (
      le_bytes 2 e.magic
      ∷ e.key
      ∷ replicate (max_key_len - length e.key) 0
      ∷ le_bytes 4 e.lba
      ∷ le_bytes 8 e.val_len
      ∷ le_bytes 4 e.crc
      ∷ le_bytes 2 e.version
      ∷ []),
  length-replicate {A = ℕ} (max_key_len - length e.key) 0,
)

-- a value that ends where a block ends, behind the first block
abbrev pub ends_with_block : ℕ → Bool
ends_with_block len = ltb data_sz len && ((len - data_sz) % lba_size == 0)

abbrev pub extra_block : ℕ → ℕ
extra_block len = if ends_with_block len then 1 else 0

padded :
    (n : ℕ)
    → n ≤ storage_size
    → meta_sz + n + numzeros n ≡ (calc_numblks n % 2 ^ 32 + extra_block n) * lba_size
unfolding numzeros calc_numblks
padded n small = ground arith

-- The bytes of a batched write are those of its blocks, but one block more where the value ends
-- with a block behind the first: `numzeros` is then a whole block and not zero.
pub length-sg_of :
    (w : Write)
    → length w.ent.key ≤ max_key_len
    → w.ent.val_len ≡ length w.val
    → length w.val ≤ storage_size
    → length (concat (sg_of w)) ≡ (write_blks w + extra_block (length w.val)) * lba_size
unfolding sg_of
length-sg_of w fits same small = omega (
  arith,
  length-concat (sg_of w),
  ap calc_numblks same,
  padded (length w.val) small,
  length-replicate {A = ℕ} (numzeros (length w.val)) 0,
  length-meta_bytes w.ent fits,
)
