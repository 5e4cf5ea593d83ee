-- ===== src/HashSlot.antt =====
-- `crc16` and `hash_slot` of coredis/_utils.py, in the Python version that is used where the C
-- extension is absent.
mod Table
pub mod Reference
pub mod Crc
pub mod Tag
pub mod Tests
use mathlib.Core.Option
use Prim.Native.Nat.{bit_and, bit_xor}
use coredis.Prelude.{
  ◌<◌, ℕ, zero, suc, ◌+◌, ◌*◌, ◌/◌, ◌%◌, ◌^◌, Option, none, some, List, [], ◌∷◌, get_elem?,
  if◌then◌else◌, ltb, ◌==◌, not, ◌&&◌, take, drop, ◌-◌,
}
use coredis.Prelude.Partial.{◌>>=◌}
use Table.{x_mode_m_crc16_lookup}

-- The loop body. `none` is the IndexError of a read past the table.
unfoldable pub crc16_step : ℕ → ℕ → Option ℕ
unfolding x_mode_m_crc16_lookup
crc16_step crc byte =
    Option.map (λ entry. bit_xor (bit_and (crc * 2 ^ 8) 0xFF00) entry)
      (get_elem? x_mode_m_crc16_lookup (bit_xor (bit_and (crc / 2 ^ 8) 0xFF) byte))

-- The loop, from the value that `crc` has reached.
unfoldable pub crc16_from : ℕ → List ℕ → Option ℕ
crc16_from crc [] = some crc
crc16_from crc (byte ∷ rest) = crc16_step crc byte >>= λ next. crc16_from next rest

unfoldable pub crc16 : List ℕ → Option ℕ
unfolding crc16_from
crc16 key = crc16_from 0 key >>= λ crc. some (bit_and crc 0xFFFF)

-- The elements of a `bytes` object.
abbrev pub AllBytes : List ℕ → Type 0
AllBytes [] = Unit {0}
AllBytes (byte ∷ rest) = (byte < 2 ^ 8) × AllBytes rest

-- `key.find(b)` for one byte; `none` is the answer -1.
unfoldable pub find_byte : ℕ → List ℕ → Option ℕ
find_byte b [] = none
find_byte b (c ∷ rest) =
    let later = Option.map (λ i. i + 1) (find_byte b rest) in if c == b then some 0 else later

-- `key.find(b, start)`
unfoldable pub find_byte_from : ℕ → List ℕ → ℕ → Option ℕ
unfolding find_byte
find_byte_from b key start = Option.map (λ i. start + i) (find_byte b (drop start key))

-- `key[start:end]`
unfoldable pub slice : List ℕ → ℕ → ℕ → List ℕ
slice key start end = take (end - start) (drop start key)

-- The part of the key that is hashed: the tag between the first `{` and the `}` that follows, if
-- it is there and not empty.
unfoldable pub hash_tag : List ℕ → List ℕ
unfolding find_byte_from slice
hash_tag key = elim (find_byte b'{' key) [
  | none ↦ key
  | some start ↦ elim (find_byte_from b'}' key (start + 1)) [
    | none ↦ key
    | some end ↦ if not (end == start + 1) then slice key (start + 1) end else key
  ]
]

unfoldable pub hash_slot : List ℕ → Option ℕ
unfolding hash_tag crc16
hash_slot key = crc16 (hash_tag key) >>= λ crc. some (crc % 16384)
