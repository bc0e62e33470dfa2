-- ===== src/Msgs/Checksum.antt =====
-- msgs/msgs.go: `ChecksumHeader`, a CRC-8 with the polynomial 0x31.
pub mod Detects
use Prim.Native.Nat.{bit_and, bit_xor}
use slot_golang.Base.{
  ℕ, zero, suc, ◌+◌, ◌*◌, ◌%◌, List, [], ◌∷◌, Option, none, some, ◌==◌, if◌then◌else◌,
}

abbrev pub k_poly : ℕ
k_poly = 0x31

-- One round of the inner loop: a left shift of a uint8, reduced when the top bit falls out.
abbrev pub crc_bit : ℕ → ℕ
crc_bit h = if bit_and h 0x80 == 0 then h * 2 % 256 else bit_xor (h * 2 % 256) k_poly

-- `for bit := 8; bit > 0; bit--`
unfoldable pub crc_bits : ℕ → ℕ → ℕ
crc_bits zero h = h
crc_bits (suc bit) h = crc_bits bit (crc_bit h)

-- The outer loop over the first n bytes; `none` is the panic of an index out of range.
unfoldable pub checksum_loop : ℕ → List ℕ → ℕ → Option ℕ
checksum_loop zero msg h = some h
checksum_loop (suc n) [] h = none
checksum_loop (suc n) (b ∷ msg) h = checksum_loop n msg (crc_bits 8 (bit_xor h b))

unfoldable pub checksum_header : List ℕ → ℕ → Option ℕ
unfolding checksum_loop crc_bits
checksum_header msg n = checksum_loop n msg 0
