-- ===== src/Prelude/Word.antt =====
-- The fixed widths of C: unsigned types wrap by `%`, signed ones by `wrap`.
use Prim.Native.Nat.{ℕ, ◌-◌, ◌%◌, ◌^◌}
use rubidium_c.Prelude.Int.{ℤ, pos, negsuc, wrap, InRange}

abbrev pub u8 : ℕ → ℕ
u8 n = n % 2 ^ 8

abbrev pub u16 : ℕ → ℕ
u16 n = n % 2 ^ 16

abbrev pub u32 : ℕ → ℕ
u32 n = n % 2 ^ 32

-- The conversion of a signed number to u32.
unfoldable pub u32_of : ℤ → ℕ
u32_of (pos n) = n % 2 ^ 32
u32_of (negsuc n) = 2 ^ 32 - 1 - n % 2 ^ 32

abbrev pub half_64 : ℕ
half_64 = 2 ^ 63

-- A signed overflow of an i64 operation is undefined in C; here it wraps, as with `-fwrapv`.
abbrev pub i64 : ℤ → ℤ
i64 = wrap half_64

abbrev pub i64_max : ℤ
i64_max = pos (2 ^ 63 - 1)

abbrev pub i64_min : ℤ
i64_min = negsuc (2 ^ 63 - 1)

abbrev pub IsI64 : ℤ → Type 0
IsI64 = InRange half_64
