-- ===== src/HashSlot/Tests.antt =====
-- `hash_slot` at some keys.
use coredis.Prelude.{ℕ, ◌≡◌, ◌≢◌, refl, ◌<◌, some, List, [], ◌∷◌, ◌++◌, arith}
use coredis.HashSlot.{crc16, crc16_step, hash_tag, hash_slot}
use coredis.HashSlot.Reference.{crc_reference}
use coredis.HashSlot.Crc.{crc16-eq-reference}
use coredis.HashSlot.Tag.{hash_slot-lt, hash_slot-tagged, hash_tag_lem}

-- `123456789`, the check input of CRC-16/XMODEM
abbrev digits : List ℕ
digits = 49 ∷ 50 ∷ 51 ∷ 52 ∷ 53 ∷ 54 ∷ 55 ∷ 56 ∷ 57 ∷ []

crc16_of_digits : crc16 digits ≡ some 0x31C3
unfolding crc16 crc16_step
crc16_of_digits = refl

crc16-eq-reference_example : crc16 digits ≡ some (crc_reference 0 digits)
crc16-eq-reference_example = crc16-eq-reference digits (
  omega arith,
  (
    omega arith,
    (
      omega arith,
      (omega arith, (omega arith, (omega arith, (omega arith, (omega arith, (omega arith, tt)))))),
    ),
  ),
)

hash_slot-lt_example : (slot : ℕ) × (hash_slot (97 ∷ 98 ∷ []) ≡ some slot) × (slot < 16384)
hash_slot-lt_example = hash_slot-lt (97 ∷ 98 ∷ []) (omega arith, (omega arith, tt))

-- `a{bc}d` and `bc`
abbrev tag : List ℕ
tag = 98 ∷ 99 ∷ []

full : tag ≢ []
full e = cc

hash_slot-tagged_example :
    hash_slot ((97 ∷ []) ++ b'{' ∷ (tag ++ b'}' ∷ (100 ∷ []))) ≡ hash_slot tag
hash_slot-tagged_example =
    hash_slot-tagged (97 ∷ []) tag (100 ∷ []) (ground arith, tt) (ground arith, (ground arith, tt))
      (ground arith, (ground arith, tt)) full

hash_tag_example :
    (hash_tag (97 ∷ []) ≡ 97 ∷ [])
    × (hash_tag ((97 ∷ []) ++ b'{' ∷ tag) ≡ (97 ∷ []) ++ b'{' ∷ tag)
    × (hash_tag ((97 ∷ []) ++ b'{' ∷ (tag ++ b'}' ∷ (100 ∷ []))) ≡ tag)
hash_tag_example =
    hash_tag_lem (97 ∷ []) tag (100 ∷ []) (ground arith, tt) (ground arith, (ground arith, tt))
