-- ===== src/Blk/Crc.antt =====
-- The checksum of dp/core/blk_index.c: `init_crc` and `newer_crc`, a CRC-32 by slicing tables.
mod Tests
use Prim.Native.Nat.{bit_and, bit_xor}
use ix.Base.{ℕ, zero, suc, ◌+◌, ◌*◌, ◌/◌, ◌%◌, ◌^◌, List, [], ◌∷◌}

abbrev polynomial : ℕ
polynomial = 0xEDB88320

-- one round of the inner loop of `init_crc`
crc_bit : ℕ → ℕ
crc_bit crc = bit_xor (crc / 2) (bit_and crc 1 * polynomial)

crc_bits : ℕ → ℕ → ℕ
unfolding crc_bit
crc_bits zero crc = crc
crc_bits (suc j) crc = crc_bits j (crc_bit crc)

-- `Crc32Lookup[k][i]`; a row is computed from the one before, as `init_crc` does.
crc32_lookup : ℕ → ℕ → ℕ
unfolding crc_bits
crc32_lookup zero i = crc_bits 8 i
crc32_lookup (suc k) i =
    let t = crc32_lookup k i in bit_xor (t / 2 ^ 8) (crc_bits 8 (bit_and t 0xFF))

-- a `uint32_t` read from four bytes of memory, the lowest first
abbrev word32 : ℕ → ℕ → ℕ → ℕ → ℕ
word32 a b c d = a + b * 2 ^ 8 + c * 2 ^ 16 + d * 2 ^ 24

-- one round of the loop over eight bytes, with the two words that it reads
crc_slice : ℕ → ℕ → ℕ → ℕ
unfolding crc32_lookup
crc_slice crc one_read two =
    let one = bit_xor one_read crc in
    bit_xor (crc32_lookup 7 (bit_and one 0xFF)) (
      bit_xor (crc32_lookup 6 (bit_and (one / 2 ^ 8) 0xFF)) (
        bit_xor (crc32_lookup 5 (bit_and (one / 2 ^ 16) 0xFF)) (
          bit_xor (crc32_lookup 4 (one / 2 ^ 24)) (
            bit_xor (crc32_lookup 3 (bit_and two 0xFF)) (
              bit_xor (crc32_lookup 2 (bit_and (two / 2 ^ 8) 0xFF)) (
                bit_xor (crc32_lookup 1 (bit_and (two / 2 ^ 16) 0xFF))
                  (crc32_lookup 0 (two / 2 ^ 24))))))))

-- the loop over single bytes
crc_byte : ℕ → ℕ → ℕ
unfolding crc32_lookup
crc_byte crc c = bit_xor (crc / 2 ^ 8) (crc32_lookup 0 (bit_xor (bit_and crc 0xFF) c))

crc_bytes : ℕ → List ℕ → ℕ
unfolding crc_byte
crc_bytes crc [] = crc
crc_bytes crc (c ∷ cs) = crc_bytes (crc_byte crc c) cs

-- both loops of `newer_crc`, over the bytes that are left
crc_loop : ℕ → List ℕ → ℕ
unfolding crc_slice crc_bytes
crc_loop crc (a ∷ b ∷ c ∷ d ∷ e ∷ f ∷ g ∷ h ∷ rest) =
    crc_loop (crc_slice crc (word32 a b c d) (word32 e f g h)) rest
crc_loop crc rest = crc_bytes crc rest

-- `newer_crc`; `~` is the complement in 32 bits
unfoldable pub newer_crc : List ℕ → ℕ
unfolding crc_loop
newer_crc bytes = bit_xor (crc_loop 0xFFFFFFFF bytes) 0xFFFFFFFF
