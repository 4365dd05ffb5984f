-- ===== src/Core/Bits/Bytes.antt =====
-- Values as the bytes that stand in memory, for src/rbc/core/bits.h.
use mathlib.Core.List.{reverse, reverse-cons}
use mathlib.Core.Path.{subst}
use rubidium_c.Prelude.{
  ℕ, zero, suc, ◌+◌, ◌*◌, ◌/◌, ◌%◌, ◌^◌, ◌<◌, ◌≡◌, refl, sym, ap, ◌∙◌, List, [], ◌∷◌, length,
  length-append, All, All-append, arith,
}
use rubidium_c.Prelude.Int.{InRange}
use rubidium_c.Core.Bits.{
  Value, i8, i16, i32, i64, u8, u16, u32, u64, f32, f64, Endian, little, big, to_unsigned,
}

-- The bytes of a value, the lowest first, and the value of such bytes.
abbrev pub bytes : ℕ → ℕ → List ℕ
bytes zero value = []
bytes (suc n) value = value % 256 ∷ bytes n (value / 256)

abbrev pub from_bytes : List ℕ → ℕ
from_bytes [] = 0
from_bytes (b ∷ bs) = b + 256 * from_bytes bs

abbrev IsByte : ℕ → Type 0
IsByte b = b < 256

pub bytes-from_bytes : (bs : List ℕ) → All IsByte bs → bytes (length bs) (from_bytes bs) ≡ bs
bytes-from_bytes [] small = refl
bytes-from_bytes (b ∷ bs) (small_b, small) =
    rw
      (
        low_byte b (from_bytes bs) small_b,
        high_bytes b (from_bytes bs) small_b,
        bytes-from_bytes bs small,
      )
      refl
  where
    low_byte : (b n : ℕ) → b < 256 → (b + 256 * n) % 256 ≡ b
    low_byte b n h = omega arith

    high_bytes : (b n : ℕ) → b < 256 → (b + 256 * n) / 256 ≡ n
    high_bytes b n h = omega arith

All-bytes : (n v : ℕ) → All IsByte (bytes n v)
All-bytes zero v = tt
All-bytes (suc n) v = (omega arith, All-bytes n (v / 256))

All-reverse : (bs : List ℕ) → All IsByte bs → All IsByte (reverse bs)
All-reverse [] small = tt
All-reverse (b ∷ bs) (small_b, small) =
    subst (All IsByte) (sym (reverse-cons b bs))
      (All-append IsByte (reverse bs) (b ∷ []) (All-reverse bs small) (small_b, tt))

length-reverse : (bs : List ℕ) → length (reverse bs) ≡ length bs
length-reverse [] = refl
length-reverse (b ∷ bs) =
    ap length (reverse-cons b bs)
    ∙ omega (arith, length-append (reverse bs) (b ∷ []), length-reverse bs)

length-bytes : (n v : ℕ) → length (bytes n v) ≡ n
length-bytes zero v = refl
length-bytes (suc n) v = ap suc (length-bytes n (v / 256))

-- A value made of the bytes of another in reverse has these.
pub bytes-reversed :
    (n v w : ℕ) → w ≡ from_bytes (reverse (bytes n v)) → bytes n w ≡ reverse (bytes n v)
bytes-reversed n v w made =
    ap (λ k. bytes k w) (sym (length-bytes n v) ∙ sym (length-reverse (bytes n v)))
    ∙ ap (bytes (length (reverse (bytes n v)))) made
    ∙ bytes-from_bytes (reverse (bytes n v)) (All-reverse (bytes n v) (All-bytes n v))

-- The bits of a value, and its width in bytes.
abbrev pub width : Value → ℕ
width (i8 z) = 1
width (i16 z) = 2
width (i32 z) = 4
width (i64 z) = 8
width (u8 n) = 1
width (u16 n) = 2
width (u32 n) = 4
width (u64 n) = 8
width (f32 n) = 4
width (f64 n) = 8

abbrev pub bits : Value → ℕ
bits (i8 z) = to_unsigned (2 ^ 7) z
bits (i16 z) = to_unsigned (2 ^ 15) z
bits (i32 z) = to_unsigned (2 ^ 31) z
bits (i64 z) = to_unsigned (2 ^ 63) z
bits (u8 n) = n
bits (u16 n) = n
bits (u32 n) = n
bits (u64 n) = n
bits (f32 n) = n
bits (f64 n) = n

-- What stands in memory, by the machine's byte order.
abbrev pub memory : Endian → Value → List ℕ
memory little v = bytes (width v) (bits v)
memory big v = reverse (bytes (width v) (bits v))

-- The value is one of its type.
abbrev pub IsValue : Value → Type 0
IsValue (i8 z) = InRange (2 ^ 7) z
IsValue (i16 z) = InRange (2 ^ 15) z
IsValue (i32 z) = InRange (2 ^ 31) z
IsValue (i64 z) = InRange (2 ^ 63) z
IsValue (u8 n) = n < 2 ^ 8
IsValue (u16 n) = n < 2 ^ 16
IsValue (u32 n) = n < 2 ^ 32
IsValue (u64 n) = n < 2 ^ 64
IsValue (f32 n) = n < 2 ^ 32
IsValue (f64 n) = n < 2 ^ 64
