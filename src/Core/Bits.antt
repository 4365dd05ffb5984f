-- ===== src/Core/Bits.antt =====
-- The portable branch of src/rbc/core/bits.h: byte swaps written with masks and shifts. Unsigned
-- values are numbers below 2^w, and bytes that do not overlap are joined by a sum. A signed or a
-- floating value is its bit pattern.
pub mod Bytes
pub mod Swap
use rubidium_c.Prelude.Int.{ℤ, pos, negsuc}
use rubidium_c.Prelude.{ℕ, ◌-◌, ◌+◌, ◌*◌, ◌/◌, ◌%◌, ◌^◌, ltb, if◌then◌else◌}

-- value & (0xff << 8 * i)
abbrev pub masked : ℕ → ℕ → ℕ
masked value i = value / 2 ^ (8 * i) % 256 * 2 ^ (8 * i)

-- The shifts of a w-bit integer.
abbrev pub shl : ℕ → ℕ → ℕ → ℕ
shl w x k = x * 2 ^ k % 2 ^ w

abbrev pub shr : ℕ → ℕ → ℕ
shr x k = x / 2 ^ k

pub bswap_u64 : ℕ → ℕ
bswap_u64 value =
    0
    + shl 64 (masked value 0) 56
    + shl 64 (masked value 1) 40
    + shl 64 (masked value 2) 24
    + shl 64 (masked value 3) 8
    + shr (masked value 4) 8
    + shr (masked value 5) 24
    + shr (masked value 6) 40
    + shr (masked value 7) 56

unfoldable pub bswap_u32 : ℕ → ℕ
bswap_u32 value =
    0
    + shl 32 (masked value 0) 24
    + shl 32 (masked value 1) 8
    + shr (masked value 2) 8
    + shr (masked value 3) 24

-- The operands are promoted to `unsigned int`, and the result is converted back to u16.
pub bswap_u16 : ℕ → ℕ
bswap_u16 value = (0 + shl 32 (masked value 0) 8 + shr (masked value 1) 8) % 2 ^ 16

pub bswap_u8 : ℕ → ℕ
bswap_u8 value = value

-- The conversion of a signed value to the unsigned type of the same width, of 2 * half values.
abbrev pub to_unsigned : ℕ → ℤ → ℕ
to_unsigned half (pos n) = n % (half + half)
to_unsigned half (negsuc n) = half + half - 1 - n % (half + half)

-- The conversion back, which keeps the bits.
abbrev pub to_signed : ℕ → ℕ → ℤ
to_signed half n = if ltb n half then pos n else negsuc (half + half - n - 1)

pub bswap_i64 : ℤ → ℤ
bswap_i64 value = to_signed (2 ^ 63) (bswap_u64 (to_unsigned (2 ^ 63) value))

pub bswap_i32 : ℤ → ℤ
bswap_i32 value = to_signed (2 ^ 31) (bswap_u32 (to_unsigned (2 ^ 31) value))

pub bswap_i16 : ℤ → ℤ
bswap_i16 value = to_signed (2 ^ 15) (bswap_u16 (to_unsigned (2 ^ 15) value))

pub bswap_i8 : ℤ → ℤ
bswap_i8 value = value

-- The bits of a floating value, copied to an integer and back.
pub bswap_f32 : ℕ → ℕ
bswap_f32 value = bswap_u32 value

pub bswap_f64 : ℕ → ℕ
bswap_f64 value = bswap_u64 value

-- The types that the macro `rbc_bswap` selects from.
pub data Value : Type 0 where
  i8 : ℤ → Value
  i16 : ℤ → Value
  i32 : ℤ → Value
  i64 : ℤ → Value
  u8 : ℕ → Value
  u16 : ℕ → Value
  u32 : ℕ → Value
  u64 : ℕ → Value
  f32 : ℕ → Value
  f64 : ℕ → Value

pub bswap : Value → Value
bswap (i8 z) = i8 (bswap_i8 z)
bswap (i16 z) = i16 (bswap_i16 z)
bswap (i32 z) = i32 (bswap_i32 z)
bswap (i64 z) = i64 (bswap_i64 z)
bswap (u8 n) = u8 (bswap_u8 n)
bswap (u16 n) = u16 (bswap_u16 n)
bswap (u32 n) = u32 (bswap_u32 n)
bswap (u64 n) = u64 (bswap_u64 n)
bswap (f32 n) = f32 (bswap_f32 n)
bswap (f64 n) = f64 (bswap_f64 n)

-- The machine's byte order, RBC_IS_LITTLE_ENDIAN or RBC_IS_BIG_ENDIAN.
pub data Endian : Type 0 where
  little : Endian
  big : Endian

pub to_le : Endian → Value → Value
to_le little value = value
to_le big value = bswap value

pub from_le : Endian → Value → Value
from_le little value = value
from_le big value = bswap value

pub to_be : Endian → Value → Value
to_be little value = bswap value
to_be big value = value

pub from_be : Endian → Value → Value
from_be little value = bswap value
from_be big value = value
