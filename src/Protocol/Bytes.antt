-- ===== src/Protocol/Bytes.antt =====
-- native/protocol/src/byte_order.hpp: big-endian integers in a span of bytes. A span is a
-- list; a byte is a number below 256. An access past the end of the span is undefined in the
-- source; here such a write changes nothing and such a read gives 0.
pub mod RoundTrip
use wiretone.Prelude.{ℕ, zero, suc, ◌+◌, ◌*◌, ◌/◌, ◌%◌, ◌^◌, ◌<◌, List, get_or, set}

abbrev pub IsByte : ℕ → Type 0
IsByte b = b < 256

-- `static_cast<std::byte>((value >> (8 * n)) & 0xFFU)`
abbrev pub byte_at : ℕ → ℕ → ℕ
byte_at value n = value / 256 ^ n % 256

unfoldable pub write_u16 : List ℕ → ℕ → ℕ → List ℕ
write_u16 output offset value =
    set (set output offset (byte_at value 1)) (offset + 1) (byte_at value 0)

unfoldable pub write_u32 : List ℕ → ℕ → ℕ → List ℕ
write_u32 output offset value =
    set
      (set (set (set output offset (byte_at value 3)) (offset + 1) (byte_at value 2)) (offset + 2)
        (byte_at value 1))
      (offset + 3) (byte_at value 0)

-- The loop of `write_u64`, by the number of rounds left: in round `index` it shifts by
-- `(8 - 1 - index) * 8`.
abbrev pub write_bytes : List ℕ → ℕ → ℕ → ℕ → List ℕ
write_bytes output offset value zero = output
write_bytes output offset value (suc left) =
    write_bytes (set output offset (byte_at value left)) (offset + 1) value left

unfoldable pub write_u64 : List ℕ → ℕ → ℕ → List ℕ
write_u64 output offset value = write_bytes output offset value 8

-- `(high << 8U) | low`, a sum, since the two parts have no bit in common.
unfoldable pub read_u16 : List ℕ → ℕ → ℕ
read_u16 input offset = (get_or input offset 0 * 256 + get_or input (offset + 1) 0) % 2 ^ 16

-- The loop of `read_u32` and `read_u64`, by the number of rounds left, at a width.
abbrev pub read_bytes : ℕ → List ℕ → ℕ → ℕ → ℕ → ℕ
read_bytes width input offset zero value = value
read_bytes width input offset (suc left) value =
    read_bytes width input (offset + 1) left ((value * 256 + get_or input offset 0) % 2 ^ width)

unfoldable pub read_u32 : List ℕ → ℕ → ℕ
read_u32 input offset = read_bytes 32 input offset 4 0

unfoldable pub read_u64 : List ℕ → ℕ → ℕ
read_u64 input offset = read_bytes 64 input offset 8 0
