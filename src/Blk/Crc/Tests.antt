-- ===== src/Blk/Crc/Tests.antt =====
-- Check values of CRC-32.
use ix.Base.{ℕ, ◌≡◌, refl, List, [], ◌∷◌}
use ix.Blk.Crc.{newer_crc}

abbrev nine_digits : List ℕ
nine_digits = b'1' ∷ b'2' ∷ b'3' ∷ b'4' ∷ b'5' ∷ b'6' ∷ b'7' ∷ b'8' ∷ b'9' ∷ []

newer_crc-nine_digits : newer_crc nine_digits ≡ 0xCBF43926
unfolding newer_crc
newer_crc-nine_digits = refl

newer_crc-nil : newer_crc [] ≡ 0
unfolding newer_crc
newer_crc-nil = refl
