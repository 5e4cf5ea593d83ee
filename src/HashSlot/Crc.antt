-- ===== src/HashSlot/Crc.antt =====
-- The table-driven `crc16` computes the bitwise CRC.
use mathlib.Core.Option
use Prim.Native.Nat.{bit_and, bit_xor}
use coredis.Prelude.{
  ℕ, zero, suc, ◌+◌, ◌*◌, ◌/◌, ◌%◌, ◌^◌, ◌<◌, ◌≡◌, refl, Bool, true, ◌&&◌, List, [], ◌∷◌, ◌==◌,
  ==_iff, ap, ◌∙◌, some, arith, all_below, at_each, get_elem?, length,
}
use native.Mathlib.Nat.{zero-add}
use coredis.Prelude.Xor.{bit_xor_shifted, bit_xor-lt}
use coredis.HashSlot.Table.{x_mode_m_crc16_lookup}
use coredis.HashSlot.Reference.{crc_bit, crc_bits, crc_byte, crc_reference}
use coredis.HashSlot.{crc16_step, crc16_from, crc16, AllBytes}

row : ℕ → ℕ → Bool
unfolding crc_bits all_below
row i entry = all_below (λ l. bit_xor (l * 2 ^ 8) entry == crc_bits 8 (i * 2 ^ 8 + l)) 256

rows : ℕ → List ℕ → Bool
rows i [] = true
rows i (entry ∷ rest) = row i entry && rows (i + 1) rest

rows_checked : rows 0 x_mode_m_crc16_lookup ≡ true
unfolding rows row x_mode_m_crc16_lookup
rows_checked = refl

shift_checked : all_below (λ c. bit_and (c * 2 ^ 8) 0xFF00 == c % 256 * 2 ^ 8) 65536 ≡ true
unfolding all_below
shift_checked = refl

mask_checked : all_below (λ x. bit_and x 0xFF == x) 256 ≡ true
unfolding all_below
mask_checked = refl

register_mask_checked : all_below (λ x. bit_and x 0xFFFF == x) 65536 ≡ true
unfolding all_below
register_mask_checked = refl

rows-length : length x_mode_m_crc16_lookup ≡ 256
unfolding x_mode_m_crc16_lookup
rows-length = refl

-- What a checked table holds at an index.
rows_sound :
    (i : ℕ) (table : List ℕ) (j : ℕ)
    → rows i table ≡ true
    → j < length table
    → (entry : ℕ) × (get_elem? table j ≡ some entry) × (row (i + j) entry ≡ true)
unfolding rows
rows_sound i [] j h p = absurd (omega arith)
rows_sound i (e ∷ rest) zero h p =
    let here : i + 0 ≡ i = omega arith in (e, refl, rw here (ground arith))
rows_sound i (e ∷ rest) (suc j) h p =
    let there : i + suc j ≡ i + 1 + j = omega arith in
    rw there (rows_sound (i + 1) rest j (ground arith) (omega arith))

row_sound :
    (i entry l : ℕ)
    → row i entry ≡ true
    → l < 256
    → bit_xor (l * 2 ^ 8) entry ≡ crc_bits 8 (i * 2 ^ 8 + l)
unfolding row
row_sound i entry l checked p =
    (==_iff (bit_xor (l * 2 ^ 8) entry) (crc_bits 8 (i * 2 ^ 8 + l))).0
      (at_each (λ k. bit_xor (k * 2 ^ 8) entry == crc_bits 8 (i * 2 ^ 8 + k)) 256 l p checked)

crc_bit-lt : (crc : ℕ) → crc_bit crc < 2 ^ 16
unfolding crc_bit
crc_bit-lt crc = ground (arith, bit_xor-lt 16 (crc * 2 % 2 ^ 16) 0x1021)

crc_bits-lt : (n crc : ℕ) → crc < 2 ^ 16 → crc_bits n crc < 2 ^ 16
unfolding crc_bits
crc_bits-lt zero crc h = h
crc_bits-lt (suc n) crc h = crc_bits-lt n (crc_bit crc) (crc_bit-lt crc)

-- An entry of the table is there, and is the remainder of its index.
table_entry :
    (i l : ℕ)
    → i < 256
    → l < 256
    → Option.map (λ entry. bit_xor (l * 2 ^ 8) entry) (get_elem? x_mode_m_crc16_lookup i)
      ≡ some (crc_bits 8 (i * 2 ^ 8 + l))
table_entry i l p q =
    let (entry, found, checked) =
      rows_sound 0 x_mode_m_crc16_lookup i rows_checked (rw rows-length p) in
    rw found (ap some (row_sound i entry l (rw zero-add at checked) q))

-- One byte: no read past the table, and the entry is what eight bits of division give.
crc16_step-eq-byte :
    (crc byte : ℕ) → crc < 2 ^ 16 → byte < 2 ^ 8 → crc16_step crc byte ≡ some (crc_byte crc byte)
unfolding crc16_step crc_byte
crc16_step-eq-byte crc byte p q =
    let h = crc / 2 ^ 8 in
    let l = crc % 2 ^ 8 in
    let index = bit_xor h byte in
    let high : bit_and (crc / 2 ^ 8) 0xFF ≡ h =
      (==_iff _ _).0 (at_each _ 256 h (omega arith) mask_checked) in
    let shifted : bit_and (crc * 2 ^ 8) 0xFF00 ≡ l * 2 ^ 8 =
      (==_iff _ _).0 (at_each _ 65536 crc p shift_checked) in
    let parts : crc ≡ h * 2 ^ 8 + l = omega arith in
    let merged : bit_xor crc (byte * 2 ^ 8) ≡ index * 2 ^ 8 + l =
      ap (λ (x : ℕ). bit_xor x (byte * 2 ^ 8)) parts ∙ bit_xor_shifted 8 h l byte (omega arith) in
    rw (high, shifted, merged)
      (table_entry index l (bit_xor-lt 8 h byte (omega arith) q) (omega arith))

crc_byte-lt : (crc byte : ℕ) → crc < 2 ^ 16 → byte < 2 ^ 8 → crc_byte crc byte < 2 ^ 16
unfolding crc_byte
crc_byte-lt crc byte p q =
    crc_bits-lt 8 (bit_xor crc (byte * 2 ^ 8)) (bit_xor-lt 16 crc (byte * 2 ^ 8) p (omega arith))

pub crc_reference-lt :
    (crc : ℕ) (key : List ℕ) → crc < 2 ^ 16 → AllBytes key → crc_reference crc key < 2 ^ 16
unfolding crc_reference
crc_reference-lt crc [] p q = p
crc_reference-lt crc (byte ∷ rest) p q =
    crc_reference-lt (crc_byte crc byte) rest (crc_byte-lt crc byte p q.0) q.1

crc16_from-eq-reference :
    (crc : ℕ) (key : List ℕ)
    → crc < 2 ^ 16
    → AllBytes key
    → crc16_from crc key ≡ some (crc_reference crc key)
unfolding crc16_from crc_reference
crc16_from-eq-reference crc [] p q = refl
crc16_from-eq-reference crc (byte ∷ rest) p q =
    rw (crc16_step-eq-byte crc byte p q.0)
      (crc16_from-eq-reference (crc_byte crc byte) rest (crc_byte-lt crc byte p q.0) q.1)

-- On every byte string, `crc16` reads no entry past its table, and returns the CRC-16/XMODEM that
-- the bitwise division defines.
pub crc16-eq-reference : (key : List ℕ) → AllBytes key → crc16 key ≡ some (crc_reference 0 key)
unfolding crc16
crc16-eq-reference key q =
    let small = crc_reference-lt 0 key (omega arith) q in
    rw (crc16_from-eq-reference 0 key (omega arith) q)
      (ap some ((==_iff _ _).0 (at_each _ 65536 _ small register_mask_checked)))
