-- ===== src/Core/Bits/Swap.antt =====
-- What the byte swaps of src/rbc/core/bits.h do.
use mathlib.Core.List.{reverse, reverse-reverse}
use native.Mathlib.Nat.{mod-eq_of_lt}
use rubidium_c.Prelude.{
  ℕ, ◌-◌, ◌+◌, ◌^◌, ◌<◌, ◌≡◌, refl, ap, ◌∙◌, le_or_lt, lt→ltb, not_ltb, inl, inr, arith,
}
use rubidium_c.Prelude.Int.{ℤ, pos, negsuc, InRange}
use rubidium_c.Core.Bits.{
  Value, i8, i16, i32, i64, u8, u16, u32, u64, f32, f64, Endian, little, big, to_unsigned,
  to_signed, bswap_u64, bswap_u32, bswap_u16, bswap_u8, bswap_i64, bswap_i32, bswap_i16, bswap_i8,
  bswap_f32, bswap_f64, bswap, to_le, from_le, to_be, from_be,
}
use rubidium_c.Core.Bits.Bytes.{bytes, from_bytes, bytes-reversed, width, bits, memory, IsValue}

-- The conversions between the types of one width.
to_unsigned-to_signed : (half n : ℕ) → n < half + half → to_unsigned half (to_signed half n) ≡ n
to_unsigned-to_signed half n h = elim (le_or_lt half n) [
  | inl large ↦
      rw
        (
          not_ltb n half large,
          mod-eq_of_lt {n = half + half - n - 1} {m = half + half} (omega (arith, h, large)),
        )
        (omega (arith, h, large))
  | inr small ↦ rw (lt→ltb n half small) (mod-eq_of_lt {n = n} {m = half + half} h)
]

to_signed-to_unsigned :
    (half : ℕ) (z : ℤ) → InRange half z → to_signed half (to_unsigned half z) ≡ z
to_signed-to_unsigned half (pos n) (small, _) =
    rw (mod-eq_of_lt {n = n} {m = half + half} (omega arith), lt→ltb n half small) refl
to_signed-to_unsigned half (negsuc n) (_, small) =
    rw
      (
        mod-eq_of_lt {n = n} {m = half + half} (omega arith),
        not_ltb (half + half - 1 - n) half (omega arith),
      )
      (ap negsuc (omega arith))

-- Each swap makes a value of the bytes in reverse.
bswap_u16-from_bytes : (v : ℕ) → bswap_u16 v ≡ from_bytes (reverse (bytes 2 v))
unfolding bswap_u16
bswap_u16-from_bytes v = omega arith

bswap_u32-from_bytes : (v : ℕ) → bswap_u32 v ≡ from_bytes (reverse (bytes 4 v))
unfolding bswap_u32
bswap_u32-from_bytes v = omega arith

bswap_u64-from_bytes : (v : ℕ) → bswap_u64 v ≡ from_bytes (reverse (bytes 8 v))
unfolding bswap_u64
bswap_u64-from_bytes v = omega arith

bytes-bswap_u16 : (v : ℕ) → bytes 2 (bswap_u16 v) ≡ reverse (bytes 2 v)
bytes-bswap_u16 v = bytes-reversed 2 v (bswap_u16 v) (bswap_u16-from_bytes v)

bytes-bswap_u32 : (v : ℕ) → bytes 4 (bswap_u32 v) ≡ reverse (bytes 4 v)
bytes-bswap_u32 v = bytes-reversed 4 v (bswap_u32 v) (bswap_u32-from_bytes v)

bytes-bswap_u64 : (v : ℕ) → bytes 8 (bswap_u64 v) ≡ reverse (bytes 8 v)
bytes-bswap_u64 v = bytes-reversed 8 v (bswap_u64 v) (bswap_u64-from_bytes v)

-- Twice the swap is the value again.
bswap_u16_twice : (v : ℕ) → v < 2 ^ 16 → bswap_u16 (bswap_u16 v) ≡ v
bswap_u16_twice v h =
    bswap_u16-from_bytes (bswap_u16 v)
    ∙ ap (λ bs. from_bytes (reverse bs)) (bytes-bswap_u16 v)
    ∙ omega arith

bswap_u32_twice : (v : ℕ) → v < 2 ^ 32 → bswap_u32 (bswap_u32 v) ≡ v
bswap_u32_twice v h =
    bswap_u32-from_bytes (bswap_u32 v)
    ∙ ap (λ bs. from_bytes (reverse bs)) (bytes-bswap_u32 v)
    ∙ omega arith

bswap_u64_twice : (v : ℕ) → v < 2 ^ 64 → bswap_u64 (bswap_u64 v) ≡ v
bswap_u64_twice v h =
    bswap_u64-from_bytes (bswap_u64 v)
    ∙ ap (λ bs. from_bytes (reverse bs)) (bytes-bswap_u64 v)
    ∙ omega arith

-- A value of n bytes in reverse is below 256 ^ n.
bswap_u16_small : (v : ℕ) → bswap_u16 v < 2 ^ 15 + 2 ^ 15
unfolding bswap_u16
bswap_u16_small v = omega arith

bswap_u32_small : (v : ℕ) → bswap_u32 v < 2 ^ 31 + 2 ^ 31
unfolding bswap_u32
bswap_u32_small v = omega arith

bswap_u64_small : (v : ℕ) → bswap_u64 v < 2 ^ 63 + 2 ^ 63
unfolding bswap_u64
bswap_u64_small v = omega arith

to_unsigned_small : (half : ℕ) (z : ℤ) → InRange half z → to_unsigned half z < half + half
to_unsigned_small half (pos n) (small, _) =
    rw (mod-eq_of_lt {n = n} {m = half + half} (omega arith)) (omega arith)
to_unsigned_small half (negsuc n) (_, small) = omega arith

-- A swap of any type reverses the bytes in memory.
swapped :
    (v : Value) → bytes (width (bswap v)) (bits (bswap v)) ≡ reverse (bytes (width v) (bits v))
unfolding bswap bswap_u8 bswap_i8 bswap_i16 bswap_i32 bswap_i64 bswap_f32 bswap_f64
swapped (i8 z) = refl
swapped (i16 z) =
    ap (bytes 2)
      (to_unsigned-to_signed (2 ^ 15) (bswap_u16 (bits (i16 z))) (bswap_u16_small (bits (i16 z))))
    ∙ bytes-bswap_u16 (bits (i16 z))
swapped (i32 z) =
    ap (bytes 4)
      (to_unsigned-to_signed (2 ^ 31) (bswap_u32 (bits (i32 z))) (bswap_u32_small (bits (i32 z))))
    ∙ bytes-bswap_u32 (bits (i32 z))
swapped (i64 z) =
    ap (bytes 8)
      (to_unsigned-to_signed (2 ^ 63) (bswap_u64 (bits (i64 z))) (bswap_u64_small (bits (i64 z))))
    ∙ bytes-bswap_u64 (bits (i64 z))
swapped (u8 n) = refl
swapped (u16 n) = bytes-bswap_u16 n
swapped (u32 n) = bytes-bswap_u32 n
swapped (u64 n) = bytes-bswap_u64 n
swapped (f32 n) = bytes-bswap_u32 n
swapped (f64 n) = bytes-bswap_u64 n

-- A signed swap, twice.
signed_twice :
    (half : ℕ) (swap : ℕ → ℕ) (z : ℤ)
    → InRange half z
    → ((n : ℕ) → swap n < half + half)
    → ((n : ℕ) → n < half + half → swap (swap n) ≡ n)
    → to_signed half (swap (to_unsigned half (to_signed half (swap (to_unsigned half z))))) ≡ z
signed_twice half swap z range small twice =
    ap (λ n. to_signed half (swap n))
      (to_unsigned-to_signed half (swap (to_unsigned half z)) (small (to_unsigned half z)))
    ∙ ap (to_signed half) (twice (to_unsigned half z) (to_unsigned_small half z range))
    ∙ to_signed-to_unsigned half z range

bswap_twice : (v : Value) → IsValue v → bswap (bswap v) ≡ v
unfolding bswap bswap_u8 bswap_i8 bswap_i16 bswap_i32 bswap_i64 bswap_f32 bswap_f64
bswap_twice (i8 z) h = refl
bswap_twice (i16 z) h = ap i16 (signed_twice (2 ^ 15) bswap_u16 z h bswap_u16_small bswap_u16_twice)
bswap_twice (i32 z) h = ap i32 (signed_twice (2 ^ 31) bswap_u32 z h bswap_u32_small bswap_u32_twice)
bswap_twice (i64 z) h = ap i64 (signed_twice (2 ^ 63) bswap_u64 z h bswap_u64_small bswap_u64_twice)
bswap_twice (u8 n) h = refl
bswap_twice (u16 n) h = ap u16 (bswap_u16_twice n h)
bswap_twice (u32 n) h = ap u32 (bswap_u32_twice n h)
bswap_twice (u64 n) h = ap u64 (bswap_u64_twice n h)
bswap_twice (f32 n) h = ap f32 (bswap_u32_twice n h)
bswap_twice (f64 n) h = ap f64 (bswap_u64_twice n h)

-- Whatever the machine's byte order, `to_be` stores a value's bytes with the highest first, and `to_le`
-- with the lowest first.
pub stored_order :
    (e : Endian) (v : Value)
    → (memory e (to_be e v) ≡ memory big v) × (memory e (to_le e v) ≡ memory little v)
unfolding to_be to_le
stored_order little v = (swapped v, refl)
stored_order big v = (refl, ap reverse (swapped v) ∙ reverse-reverse (bytes (width v) (bits v)))

-- Whatever the machine's byte order, `from_be` undoes `to_be`, `from_le` undoes `to_le`, and both the
-- other way round, on every value of its type.
pub conversions_undone :
    (e : Endian) (v : Value)
    → IsValue v
    → (from_be e (to_be e v) ≡ v)
      × (to_be e (from_be e v) ≡ v)
      × (from_le e (to_le e v) ≡ v)
      × (to_le e (from_le e v) ≡ v)
unfolding to_be from_be to_le from_le
conversions_undone little v h = (bswap_twice v h, bswap_twice v h, refl, refl)
conversions_undone big v h = (refl, refl, bswap_twice v h, bswap_twice v h)
