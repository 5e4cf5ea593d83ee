-- ===== src/HashSlot/Reference.antt =====
-- CRC-16/XMODEM by its definition, one bit at a time: the polynomial 0x1021, no reflection, the
-- register at 0 to begin with. No table.
use Prim.Native.Nat.{bit_xor}
use coredis.Prelude.{ℕ, zero, suc, ◌*◌, ◌%◌, ◌^◌, List, [], ◌∷◌, leb, if◌then◌else◌}

unfoldable pub crc_bit : ℕ → ℕ
crc_bit crc = if leb 0x8000 crc then bit_xor (crc * 2 % 2 ^ 16) 0x1021 else crc * 2 % 2 ^ 16

unfoldable pub crc_bits : ℕ → ℕ → ℕ
unfolding crc_bit
crc_bits zero crc = crc
crc_bits (suc n) crc = crc_bits n (crc_bit crc)

unfoldable pub crc_byte : ℕ → ℕ → ℕ
unfolding crc_bits
crc_byte crc byte = crc_bits 8 (bit_xor crc (byte * 2 ^ 8))

unfoldable pub crc_reference : ℕ → List ℕ → ℕ
unfolding crc_byte
crc_reference crc [] = crc
crc_reference crc (byte ∷ rest) = crc_reference (crc_byte crc byte) rest
