-- ===== src/Charconv/FromChars/Unsigned.antt =====
-- What the unsigned conversions of src/rbc/utils/charconv.c do with blanks, a sign and digits.
use rubidium_c.Prelude.{
  ℕ, suc, ◌+◌, ◌-◌, ◌*◌, ◌/◌, ◌%◌, ◌≤◌, ◌<◌, ◌≡◌, ◌≢◌, refl, true, false, ◌==◌, ltb, List, [], ◌∷◌,
  ◌++◌, length, All, arith, inl, inr, le_or_lt, lt→ltb, ◌∙◌,
}
use native.Mathlib.Nat.{mod-eq_of_lt}
use rubidium_c.Charconv.Types.{Ctype, IsCtype, UnsignedType, u8, u16, u32, u64, unsigned_max, chars}
use rubidium_c.Charconv.FromChars.{
  from_chars_unsigned, unsigned_sign, unsigned_digits, unsigned_loop, parsed, out_of_range, invalid,
}
use rubidium_c.Charconv.FromChars.Text.{
  value, IsDigit, Stops, Sign, unsigned, plus, minus, sign_text, is_minus, NoUnsigned, zero_add,
  add_zero, add_suc, not_below, le-value, digit-leb, digit-small, not_blank-digit, not_blank-sign,
  skip_spaces-append, skip_spaces-end,
}

unsigned_max-large : (type : UnsignedType) → 9 < unsigned_max type
unsigned_max-large u8 = omega arith
unsigned_max-large u16 = omega arith
unsigned_max-large u32 = omega arith
unsigned_max-large u64 = omega arith

differs : (c k : ℕ) → c ≢ k → (c == k) ≡ false
differs c k h = ground arith

not_minus : (c : ℕ) → IsDigit c → (c == b'-') ≡ false
not_minus c digit = ground arith

not_plus : (c : ℕ) → IsDigit c → (c == b'+') ≡ false
not_plus c digit = ground arith

module _ (ct : Ctype) (lawful : IsCtype ct) (type : UnsignedType) where
  module _ (n d : ℕ) (small : d < 10) where
    tenth : n ≤ unsigned_max type / 10 → ltb (unsigned_max type / 10) n ≡ false
    tenth below = ground arith

    ten_times : n ≤ unsigned_max type / 10 → n * 10 % suc (unsigned_max type) ≡ n * 10
    ten_times below = mod-eq_of_lt {n = n * 10} {m = suc (unsigned_max type)} (omega arith)

    in_range : n * 10 + d ≤ unsigned_max type → ltb (unsigned_max type - d) (n * 10) ≡ false
    in_range fits = ground arith

    not_in_range : unsigned_max type < n * 10 + d → ltb (unsigned_max type - d) (n * 10) ≡ true
    not_in_range exceeds = ground (arith, unsigned_max-large type)

  step :
      (c : ℕ) (rest : List ℕ) (ptr n : ℕ)
      → IsDigit c
      → n * 10 + (c - b'0') ≤ unsigned_max type
      → unsigned_loop ct type (c ∷ rest) ptr n
        ≡ unsigned_loop ct type rest (ptr + 1) (n * 10 + (c - b'0'))
  unfolding unsigned_loop
  step c rest ptr n digit fits =
      rw
        (
          lawful.digits c,
          digit-leb c digit,
          tenth n d small below,
          ten_times n d small below,
          in_range n d small fits,
          mod-eq_of_lt {n = n * 10 + (c - b'0')} {m = suc (unsigned_max type)} (omega arith),
        )
        refl
    where
      d : ℕ
      d = c - b'0'

      small : c - b'0' < 10
      small = digit-small c digit

      below : n ≤ unsigned_max type / 10
      below = omega arith

  loop_reads :
      (n : ℕ) (ds rest : List ℕ) (ptr : ℕ)
      → All IsDigit ds
      → value n ds ≤ unsigned_max type
      → unsigned_loop ct type (ds ++ rest) ptr n
        ≡ unsigned_loop ct type rest (ptr + length ds) (value n ds)
  loop_reads n [] rest ptr digits fits = rw (add_zero ptr) refl
  loop_reads n (c ∷ ds) rest ptr (digit, digits) fits =
      step c (ds ++ rest) ptr n digit (omega (arith, le-value (n * 10 + (c - b'0')) ds))
      ∙ loop_reads (n * 10 + (c - b'0')) ds rest (ptr + 1) digits fits
      ∙ rw (add_suc ptr (length ds)) refl

  loop_overflows :
      (c : ℕ) (rest : List ℕ) (ptr n : ℕ)
      → IsDigit c
      → unsigned_max type < n * 10 + (c - b'0')
      → unsigned_loop ct type (c ∷ rest) ptr n ≡ out_of_range ptr
  unfolding unsigned_loop
  loop_overflows c rest ptr n digit exceeds = elim (le_or_lt n (unsigned_max type / 10)) [
    | inl below ↦
        rw
          (
            lawful.digits c,
            digit-leb c digit,
            tenth n (c - b'0') (digit-small c digit) below,
            ten_times n (c - b'0') (digit-small c digit) below,
            not_in_range n (c - b'0') (digit-small c digit) exceeds,
          )
          refl
    | inr above ↦
        rw (lawful.digits c, digit-leb c digit, lt→ltb (unsigned_max type / 10) n above) refl
  ]

  loop_ends :
      (rest : List ℕ) (ptr n : ℕ) → Stops ct rest → unsigned_loop ct type rest ptr n ≡ parsed ptr n
  unfolding unsigned_loop
  loop_ends [] ptr n stops = refl
  loop_ends (c ∷ rest) ptr n stops = rw stops refl

  past_spaces :
      (first last : ℕ) (buf blanks : List ℕ) (c : ℕ) (rest : List ℕ)
      → first < last
      → chars first last buf ≡ blanks ++ c ∷ rest
      → All (λ b. ct.isspace b ≡ true) blanks
      → ct.isspace c ≡ false
      → from_chars_unsigned ct type first last buf
        ≡ unsigned_sign ct type first (c ∷ rest, first + length blanks)
  unfolding from_chars_unsigned
  past_spaces first last buf blanks c rest nonempty text blank other =
      rw
        (not_below first last nonempty, text, skip_spaces-append ct blanks c rest first blank other)
        refl

  digits_start :
      (first : ℕ) (c : ℕ) (rest : List ℕ) (ptr : ℕ)
      → IsDigit c
      → unsigned_digits ct type first (c ∷ rest) ptr
        ≡ unsigned_loop ct type rest (ptr + 1) (0 + (c - b'0'))
  unfolding unsigned_digits
  digits_start first c rest ptr digit =
      rw (zero_add (c - b'0'), lawful.digits c, digit-leb c digit) refl

  reaches_loop :
      (first last : ℕ) (buf blanks : List ℕ) (sign : Sign) (c : ℕ) (rest : List ℕ)
      → first < last
      → chars first last buf ≡ blanks ++ (sign_text sign ++ c ∷ rest)
      → All (λ b. ct.isspace b ≡ true) blanks
      → is_minus sign ≡ false
      → IsDigit c
      → from_chars_unsigned ct type first last buf
        ≡ unsigned_loop ct type rest
            (first + length blanks + length (sign_text sign) + 1)
            (0 + (c - b'0'))
  unfolding unsigned_sign
  reaches_loop first last buf blanks unsigned c rest nonempty text blank _ digit =
      past_spaces first last buf blanks c rest nonempty text blank
        (not_blank-digit ct lawful c digit)
      ∙ rw (not_minus c digit, not_plus c digit, add_zero (first + length blanks))
          (digits_start first c rest (first + length blanks) digit)
  reaches_loop first last buf blanks plus c rest nonempty text blank _ digit =
      past_spaces first last buf blanks b'+' (c ∷ rest) nonempty text blank
        (not_blank-sign ct lawful b'+' (inl refl))
      ∙ digits_start first c rest (first + length blanks + 1) digit
  reaches_loop first last buf blanks minus c rest nonempty text blank no_minus digit = ground arith

  empty_range :
      (first last : ℕ) (buf : List ℕ)
      → last ≤ first
      → from_chars_unsigned ct type first last buf ≡ invalid first
  unfolding from_chars_unsigned
  empty_range first last buf below = ground arith

  no_digits :
      (first : ℕ) (rest : List ℕ) (ptr : ℕ)
      → Stops ct rest
      → unsigned_digits ct type first rest ptr ≡ invalid first
  unfolding unsigned_digits
  no_digits first [] ptr stops = refl
  no_digits first (c ∷ rest) ptr stops = rw stops refl

  rejected :
      (first last : ℕ) (buf blanks : List ℕ) (sign : Sign) (rest : List ℕ)
      → first < last
      → chars first last buf ≡ blanks ++ (sign_text sign ++ rest)
      → All (λ b. ct.isspace b ≡ true) blanks
      → NoUnsigned ct sign rest
      → from_chars_unsigned ct type first last buf ≡ invalid first
  unfolding unsigned_sign from_chars_unsigned
  rejected first last buf blanks unsigned [] nonempty text blank no_digit =
      rw (not_below first last nonempty, text, skip_spaces-end ct blanks first blank) refl
  rejected first last buf blanks unsigned (c ∷ rest) nonempty text blank (other, digit, p, m) =
      past_spaces first last buf blanks c rest nonempty text blank other
      ∙ rw (differs c b'+' p, differs c b'-' m)
          (no_digits first (c ∷ rest) (first + length blanks) digit)
  rejected first last buf blanks plus rest nonempty text blank no_digit =
      past_spaces first last buf blanks b'+' rest nonempty text blank
        (not_blank-sign ct lawful b'+' (inl refl))
      ∙ no_digits first rest (first + length blanks + 1) no_digit
  rejected first last buf blanks minus rest nonempty text blank no_digit =
      past_spaces first last buf blanks b'-' rest nonempty text blank
        (not_blank-sign ct lawful b'-' (inr refl))

-- For every unsigned type: where the range [first, last) holds blanks, a plus or no sign and at
-- least one digit, up to a character that is no digit or the end, and the type holds the number
-- that the digits spell, the conversion stores exactly that number, reports no error and points
-- behind the last digit.
pub from_chars_unsigned_accepts :
    (ct : Ctype) (lawful : IsCtype ct) (type : UnsignedType) (first last : ℕ) (buf blanks : List ℕ)
    (sign : Sign) (c : ℕ) (ds rest : List ℕ)
    → first < last
    → chars first last buf ≡ blanks ++ (sign_text sign ++ c ∷ (ds ++ rest))
    → All (λ b. ct.isspace b ≡ true) blanks
    → is_minus sign ≡ false
    → All IsDigit (c ∷ ds)
    → Stops ct rest
    → value 0 (c ∷ ds) ≤ unsigned_max type
    → from_chars_unsigned ct type first last buf
      ≡ parsed (first + length blanks + length (sign_text sign) + 1 + length ds) (value 0 (c ∷ ds))
from_chars_unsigned_accepts ct lawful type first last buf blanks sign c ds rest nonempty text blank
      sign_ok (digit, digits) stops fits =
    reaches_loop ct lawful type first last buf blanks sign c (ds ++ rest) nonempty text blank
      sign_ok digit
    ∙ loop_reads ct lawful type (0 + (c - b'0')) ds rest start digits fits
    ∙ loop_ends ct lawful type rest (start + length ds) (value 0 (c ∷ ds)) stops
  where
    start : ℕ
    start = first + length blanks + length (sign_text sign) + 1

-- For every unsigned type: where the digits up to and with `e` spell a number beyond the type and
-- those before `e` do not, the conversion reports that the result is out of range, points at `e`
-- and stores nothing.
pub from_chars_unsigned_overflows :
    (ct : Ctype) (lawful : IsCtype ct) (type : UnsignedType) (first last : ℕ) (buf blanks : List ℕ)
    (sign : Sign) (c : ℕ) (ds : List ℕ) (e : ℕ) (rest : List ℕ)
    → first < last
    → chars first last buf ≡ blanks ++ (sign_text sign ++ c ∷ (ds ++ e ∷ rest))
    → All (λ b. ct.isspace b ≡ true) blanks
    → is_minus sign ≡ false
    → All IsDigit (c ∷ ds)
    → IsDigit e
    → value 0 (c ∷ ds) ≤ unsigned_max type
    → unsigned_max type < value 0 (c ∷ ds) * 10 + (e - b'0')
    → from_chars_unsigned ct type first last buf
      ≡ out_of_range (first + length blanks + length (sign_text sign) + 1 + length ds)
from_chars_unsigned_overflows ct lawful type first last buf blanks sign c ds e rest nonempty text
      blank sign_ok (digit, digits) last_digit fits exceeds =
    reaches_loop ct lawful type first last buf blanks sign c (ds ++ e ∷ rest) nonempty text blank
      sign_ok digit
    ∙ loop_reads ct lawful type (0 + (c - b'0')) ds (e ∷ rest) start digits fits
    ∙ loop_overflows ct lawful type e rest (start + length ds) (value 0 (c ∷ ds)) last_digit exceeds
  where
    start : ℕ
    start = first + length blanks + length (sign_text sign) + 1

-- For every unsigned type: where the blanks are followed by a minus, or by a plus or no sign and
-- then no digit, the conversion reports an invalid argument, points at the start and stores nothing.
pub from_chars_unsigned_rejects :
    (ct : Ctype) (lawful : IsCtype ct) (type : UnsignedType) (first last : ℕ) (buf blanks : List ℕ)
    (sign : Sign) (rest : List ℕ)
    → chars first last buf ≡ blanks ++ (sign_text sign ++ rest)
    → All (λ b. ct.isspace b ≡ true) blanks
    → NoUnsigned ct sign rest
    → from_chars_unsigned ct type first last buf ≡ invalid first
from_chars_unsigned_rejects ct lawful type first last buf blanks sign rest text blank no_digit =
    elim (le_or_lt last first) [
      | inl below ↦ empty_range ct lawful type first last buf below
      | inr nonempty ↦
          rejected ct lawful type first last buf blanks sign rest nonempty text blank no_digit
    ]
