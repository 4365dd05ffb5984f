-- ===== src/Charconv/ToChars/Short.antt =====
-- The signed conversions to text of src/rbc/utils/charconv.c where the range is too short.
use mathlib.Core.Path.{subst}
use rubidium_c.Prelude.{
  ℕ, suc, ◌+◌, ◌<◌, ◌≡◌, refl, ap, ◌∙◌, Bool, true, false, ◌==◌, List, ◌++◌, length, set, lt→ltb,
  arith, inl, inr, Bool-cases,
}
use rubidium_c.Prelude.Int.{ℤ, pos, negsuc, ◌==ℤ◌}
use rubidium_c.Charconv.Types.{SignedType, i8, i16, i32, i64, signed_max, signed_min}
use rubidium_c.Charconv.ToChars.{
  max_len, too_large, count_digits, write_number, to_chars_digits, to_chars_signed,
}
use rubidium_c.Charconv.ToChars.Digits.{positive, IsDecimal, IsNumeral}
use rubidium_c.Charconv.ToChars.Text.{signed_max-limit, count_digits-length, write_short}
use rubidium_c.Charconv.ToChars.Signed.{
  InRange, size, minus_sign, signed-pos, signed-negsuc, least-eq, negated,
}

-- The least value has as many digits as the greatest.
least_count :
    (type : SignedType)
    → count_digits max_len (signed_max type) ≡ count_digits max_len (suc (signed_max type))
unfolding count_digits
least_count i8 = refl
least_count i16 = refl
least_count i32 = refl
least_count i64 = refl

least_short :
    (type : SignedType) (first last : ℕ) (buf ds : List ℕ)
    → IsDecimal (suc (signed_max type)) ds
    → last < first + length ds
    → write_number true first last (signed_max type) buf ≡ too_large last buf
unfolding write_number
least_short type first last buf ds decimal short =
    rw
      (
        least_count type,
        count_digits-length (suc (signed_max type)) ds (omega (arith, signed_max-limit type))
            decimal,
        lt→ltb last (first + length ds) short,
      )
      refl

digits_refused :
    (is_min : Bool) (first last n : ℕ) (buf : List ℕ)
    → write_number is_min first last n buf ≡ too_large last buf
    → to_chars_digits is_min first last n buf ≡ too_large last buf
unfolding to_chars_digits
digits_refused is_min first last n buf refused = elim (Bool-cases (first == last)) [
  | inl full ↦ rw (full) refl
  | inr some_room ↦ rw (some_room) refused
]

-- The buffer with the sign of the value.
abbrev pub signed_buffer : ℤ → ℕ → List ℕ → List ℕ
signed_buffer (pos n) first buf = buf
signed_buffer (negsuc n) first buf = set buf first b'-'

-- For every signed type: where a range that is not empty is shorter than the decimal text of the value
-- with its sign, the conversion reports that the value is too large, points at the end of the range and
-- leaves the buffer as it was, but for the minus of a negative value, which it has stored.
pub to_chars_signed_refuses :
    (type : SignedType) (v : ℤ) (first last : ℕ) (buf ds : List ℕ)
    → InRange type v
    → IsNumeral (size v) ds
    → first < last
    → last < first + length (minus_sign v ++ ds)
    → to_chars_signed type first last v buf ≡ too_large last (signed_buffer v first buf)
to_chars_signed_refuses type (pos n) first last buf ds range (inl (zero_n, text)) room short =
    absurd (omega (arith, ap length text))
to_chars_signed_refuses type (pos n) first last buf ds range (inr decimal) room short =
    signed-pos type n first last buf (positive n ds decimal) range.0 room
    ∙ digits_refused false first last n buf
        (write_short false n first last buf ds (omega (arith, signed_max-limit type)) decimal short)
to_chars_signed_refuses type (negsuc n) first last buf ds range (inl (zero_n, text)) room short =
    absurd (omega arith)
to_chars_signed_refuses type (negsuc n) first last buf ds range (inr decimal) room short =
    signed-negsuc type n first last buf room ∙ elim (Bool-cases (negsuc n ==ℤ signed_min type)) [
      | inl least ↦ rw (least) (
          digits_refused true (first + 1) last (signed_max type) (set buf first b'-') (
            least_short type (first + 1) last (set buf first b'-') ds
              (subst (λ m. IsDecimal (suc m) ds) (least-eq type n least) decimal) (omega arith)))
      | inr other ↦
          rw (other, negated type n (omega arith) other)
            (digits_refused false (first + 1) last (suc n) (set buf first b'-') (
              write_short false (suc n) (first + 1) last (set buf first b'-') ds
                (omega (arith, signed_max-limit type)) decimal (omega arith)))
    ]
