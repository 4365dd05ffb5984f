-- ===== src/Charconv/FromChars/Accepts.antt =====
-- What the signed conversions of src/rbc/utils/charconv.c do with blanks, a sign and digits.
use rubidium_c.Prelude.{
  ℕ, ◌+◌, ◌-◌, ◌*◌, ◌≤◌, ◌<◌, ◌≡◌, ◌≢◌, refl, Bool, true, false, ◌==◌, List, [], ◌∷◌, ◌++◌, length,
  All, arith, ◌||◌, inl, inr, le_or_lt, ◌∙◌,
}
use rubidium_c.Charconv.Types.{Ctype, IsCtype, SignedType, chars}
use rubidium_c.Charconv.FromChars.{
  from_chars_signed, signed_sign, signed_digits, signed_loop, parsed, out_of_range, invalid,
}
use rubidium_c.Charconv.FromChars.Text.{
  value, IsDigit, Stops, Sign, unsigned, plus, minus, sign_text, is_minus, NoDigit, signed_value,
  magnitude_limit, add_zero, not_below, digit-leb, not_blank-digit, not_blank-sign,
  skip_spaces-append, skip_spaces-end,
}
use rubidium_c.Charconv.FromChars.Signed.{
  held, held_min, held-digit, held_min-digit, loop_reads, loop_ends, loop_overflows,
}

no_sign : (c : ℕ) → c ≢ b'+' → c ≢ b'-' → (c == b'+' || c == b'-') ≡ false
no_sign c p m = ground arith

digit_sign : (c : ℕ) → IsDigit c → (c == b'+' || c == b'-') ≡ false
digit_sign c digit = ground arith

module _ (ct : Ctype) (lawful : IsCtype ct) (type : SignedType) where
  past_spaces :
      (first last : ℕ) (buf blanks : List ℕ) (c : ℕ) (rest : List ℕ)
      → first < last
      → chars first last buf ≡ blanks ++ c ∷ rest
      → All (λ b. ct.isspace b ≡ true) blanks
      → ct.isspace c ≡ false
      → from_chars_signed ct type first last buf
        ≡ signed_sign ct type first (c ∷ rest, first + length blanks)
  unfolding from_chars_signed
  past_spaces first last buf blanks c rest nonempty text blank other =
      rw
        (not_below first last nonempty, text, skip_spaces-append ct blanks c rest first blank other)
        refl

  digits_start :
      (is_negative : Bool) (first : ℕ) (c : ℕ) (rest : List ℕ) (ptr : ℕ)
      → IsDigit c
      → signed_digits ct type is_negative first (c ∷ rest) ptr
        ≡ signed_loop ct type is_negative rest
            (ptr + 1)
            (held type (0 + (c - b'0')))
            (held_min type (0 + (c - b'0')))
  unfolding signed_digits
  digits_start is_negative first c rest ptr digit =
      rw
        (
          lawful.digits c,
          digit-leb c digit,
          held-digit type (c - b'0') (omega arith),
          held_min-digit type (c - b'0') (omega arith),
        )
        refl

  -- The range holds blanks, a sign and a digit `c`: the loop starts on the rest.
  reaches_loop :
      (first last : ℕ) (buf blanks : List ℕ) (sign : Sign) (c : ℕ) (rest : List ℕ)
      → first < last
      → chars first last buf ≡ blanks ++ (sign_text sign ++ c ∷ rest)
      → All (λ b. ct.isspace b ≡ true) blanks
      → IsDigit c
      → from_chars_signed ct type first last buf
        ≡ signed_loop ct type
            (is_minus sign)
            rest
            (first + length blanks + length (sign_text sign) + 1)
            (held type (0 + (c - b'0')))
            (held_min type (0 + (c - b'0')))
  unfolding signed_sign
  reaches_loop first last buf blanks unsigned c rest nonempty text blank digit =
      past_spaces first last buf blanks c rest nonempty text blank
        (not_blank-digit ct lawful c digit)
      ∙ rw (digit_sign c digit, add_zero (first + length blanks))
          (digits_start false first c rest (first + length blanks) digit)
  reaches_loop first last buf blanks plus c rest nonempty text blank digit =
      past_spaces first last buf blanks b'+' (c ∷ rest) nonempty text blank
        (not_blank-sign ct lawful b'+' (inl refl))
      ∙ digits_start false first c rest (first + length blanks + 1) digit
  reaches_loop first last buf blanks minus c rest nonempty text blank digit =
      past_spaces first last buf blanks b'-' (c ∷ rest) nonempty text blank
        (not_blank-sign ct lawful b'-' (inr refl))
      ∙ digits_start true first c rest (first + length blanks + 1) digit

  empty_range :
      (first last : ℕ) (buf : List ℕ)
      → last ≤ first
      → from_chars_signed ct type first last buf ≡ invalid first
  unfolding from_chars_signed
  empty_range first last buf below = ground arith

  no_digits :
      (is_negative : Bool) (first : ℕ) (rest : List ℕ) (ptr : ℕ)
      → Stops ct rest
      → signed_digits ct type is_negative first rest ptr ≡ invalid first
  unfolding signed_digits
  no_digits is_negative first [] ptr stops = refl
  no_digits is_negative first (c ∷ rest) ptr stops = rw stops refl

  rejected :
      (first last : ℕ) (buf blanks : List ℕ) (sign : Sign) (rest : List ℕ)
      → first < last
      → chars first last buf ≡ blanks ++ (sign_text sign ++ rest)
      → All (λ b. ct.isspace b ≡ true) blanks
      → NoDigit ct sign rest
      → from_chars_signed ct type first last buf ≡ invalid first
  unfolding signed_sign from_chars_signed
  rejected first last buf blanks unsigned [] nonempty text blank no_digit =
      rw (not_below first last nonempty, text, skip_spaces-end ct blanks first blank) refl
  rejected first last buf blanks unsigned (c ∷ rest) nonempty text blank (other, digit, p, m) =
      past_spaces first last buf blanks c rest nonempty text blank other
      ∙ rw (no_sign c p m) (no_digits false first (c ∷ rest) (first + length blanks) digit)
  rejected first last buf blanks plus rest nonempty text blank no_digit =
      past_spaces first last buf blanks b'+' rest nonempty text blank
        (not_blank-sign ct lawful b'+' (inl refl))
      ∙ no_digits false first rest (first + length blanks + 1) no_digit
  rejected first last buf blanks minus rest nonempty text blank no_digit =
      past_spaces first last buf blanks b'-' rest nonempty text blank
        (not_blank-sign ct lawful b'-' (inr refl))
      ∙ no_digits true first rest (first + length blanks + 1) no_digit

-- For every signed type: where the range [first, last) holds blanks, a sign or none and at least
-- one digit, up to a character that is no digit or the end, and the type holds the number that the
-- digits spell, the conversion stores exactly that number with the sign, reports no error and
-- points behind the last digit.
pub from_chars_signed_accepts :
    (ct : Ctype) (lawful : IsCtype ct) (type : SignedType) (first last : ℕ) (buf blanks : List ℕ)
    (sign : Sign) (c : ℕ) (ds rest : List ℕ)
    → first < last
    → chars first last buf ≡ blanks ++ (sign_text sign ++ c ∷ (ds ++ rest))
    → All (λ b. ct.isspace b ≡ true) blanks
    → All IsDigit (c ∷ ds)
    → Stops ct rest
    → value 0 (c ∷ ds) ≤ magnitude_limit type (is_minus sign)
    → from_chars_signed ct type first last buf
      ≡ parsed
          (first + length blanks + length (sign_text sign) + 1 + length ds)
          (signed_value (is_minus sign) (value 0 (c ∷ ds)))
from_chars_signed_accepts ct lawful type first last buf blanks sign c ds rest nonempty text blank
      (digit, digits) stops fits =
    reaches_loop ct lawful type first last buf blanks sign c (ds ++ rest) nonempty text blank digit
    ∙ loop_reads ct lawful type (is_minus sign) (0 + (c - b'0')) ds rest start digits fits
    ∙ loop_ends ct lawful type (is_minus sign) rest (start + length ds) (value 0 (c ∷ ds)) stops
        fits
  where
    start : ℕ
    start = first + length blanks + length (sign_text sign) + 1

-- For every signed type: where the digits up to and with `e` spell a number beyond the type's
-- limit on the side of the sign and those before `e` do not, the conversion reports that the
-- result is out of range, points at `e` and stores nothing.
pub from_chars_signed_overflows :
    (ct : Ctype) (lawful : IsCtype ct) (type : SignedType) (first last : ℕ) (buf blanks : List ℕ)
    (sign : Sign) (c : ℕ) (ds : List ℕ) (e : ℕ) (rest : List ℕ)
    → first < last
    → chars first last buf ≡ blanks ++ (sign_text sign ++ c ∷ (ds ++ e ∷ rest))
    → All (λ b. ct.isspace b ≡ true) blanks
    → All IsDigit (c ∷ ds)
    → IsDigit e
    → value 0 (c ∷ ds) ≤ magnitude_limit type (is_minus sign)
    → magnitude_limit type (is_minus sign) < value 0 (c ∷ ds) * 10 + (e - b'0')
    → from_chars_signed ct type first last buf
      ≡ out_of_range (first + length blanks + length (sign_text sign) + 1 + length ds)
from_chars_signed_overflows ct lawful type first last buf blanks sign c ds e rest nonempty text
      blank (digit, digits) last_digit fits exceeds =
    reaches_loop ct lawful type first last buf blanks sign c (ds ++ e ∷ rest) nonempty text blank
      digit
    ∙ loop_reads ct lawful type (is_minus sign) (0 + (c - b'0')) ds (e ∷ rest) start digits fits
    ∙ loop_overflows ct lawful type (is_minus sign) e rest (start + length ds) (value 0 (c ∷ ds))
        last_digit fits exceeds
  where
    start : ℕ
    start = first + length blanks + length (sign_text sign) + 1

-- For every signed type: where the blanks and a sign or none are followed by no digit, the
-- conversion reports an invalid argument, points at the start and stores nothing.
pub from_chars_signed_rejects :
    (ct : Ctype) (lawful : IsCtype ct) (type : SignedType) (first last : ℕ) (buf blanks : List ℕ)
    (sign : Sign) (rest : List ℕ)
    → chars first last buf ≡ blanks ++ (sign_text sign ++ rest)
    → All (λ b. ct.isspace b ≡ true) blanks
    → NoDigit ct sign rest
    → from_chars_signed ct type first last buf ≡ invalid first
from_chars_signed_rejects ct lawful type first last buf blanks sign rest text blank no_digit =
    elim (le_or_lt last first) [
      | inl below ↦ empty_range ct lawful type first last buf below
      | inr nonempty ↦
          rejected ct lawful type first last buf blanks sign rest nonempty text blank no_digit
    ]
