-- ===== src/Charconv/Generic.antt =====
-- rbc_from_chars and rbc_to_chars of src/rbc/utils/charconv.h, which choose the conversion by the type
-- of the number, and what they do for every type.
use rubidium_c.Prelude.{
  ℕ, ◌+◌, ◌-◌, ◌*◌, ◌≤◌, ◌<◌, ◌≡◌, true, false, List, [], ◌∷◌, ◌++◌, length, All,
}
use rubidium_c.Prelude.Int.{ℤ}
use rubidium_c.Core.Error.{ok}
use rubidium_c.Charconv.Types.{
  Ctype, IsCtype, SignedType, UnsignedType, FromCharsResult, ToCharsResult, unsigned_max, chars,
}
use rubidium_c.Charconv.FromChars.{
  from_chars_signed, from_chars_unsigned, parsed, invalid, out_of_range,
}
use rubidium_c.Charconv.FromChars.Text.{
  value, IsDigit, Stops, Sign, sign_text, is_minus, signed_value, magnitude_limit, NoDigit,
  NoUnsigned,
}
use rubidium_c.Charconv.FromChars.Accepts.{
  from_chars_signed_accepts, from_chars_signed_overflows, from_chars_signed_rejects,
}
use rubidium_c.Charconv.FromChars.Unsigned.{
  from_chars_unsigned_accepts, from_chars_unsigned_overflows, from_chars_unsigned_rejects,
}
use rubidium_c.Charconv.ToChars.{max_len, written, too_large, to_chars_signed, to_chars_unsigned}
use rubidium_c.Charconv.ToChars.Digits.{IsNumeral}
use rubidium_c.Charconv.ToChars.Signed.{InRange, size, minus_sign, to_chars_signed_writes}
use rubidium_c.Charconv.ToChars.Unsigned.{to_chars_unsigned_writes, to_chars_unsigned_refuses}
use rubidium_c.Charconv.ToChars.Short
use rubidium_c.Charconv.ToChars.Short.{to_chars_signed_refuses}
use rubidium_c.Charconv.RoundTrip.{from_chars-to_chars_signed}
use rubidium_c.Charconv.RoundTrip.Unsigned.{from_chars-to_chars_unsigned}

-- The types that the conversions are chosen by.
pub data IntType : Type 0 where
  signed : SignedType → IntType
  unsigned : UnsignedType → IntType

abbrev pub Value : IntType → Type 0
Value (signed type) = ℤ
Value (unsigned type) = ℕ

unfoldable pub from_chars : Ctype → (type : IntType) → ℕ → ℕ → List ℕ → FromCharsResult (Value type)
from_chars ct (signed type) first last buf = from_chars_signed ct type first last buf
from_chars ct (unsigned type) first last buf = from_chars_unsigned ct type first last buf

unfoldable pub to_chars : (type : IntType) → ℕ → ℕ → Value type → List ℕ → ToCharsResult
to_chars (signed type) first last v buf = to_chars_signed type first last v buf
to_chars (unsigned type) first last v buf = to_chars_unsigned type first last v buf

-- The values of a type, and a value as a sign and a size.
abbrev pub Fits : (type : IntType) → Value type → Type 0
Fits (signed type) v = InRange type v
Fits (unsigned type) v = v ≤ unsigned_max type

abbrev pub sign_before : (type : IntType) → Value type → List ℕ
sign_before (signed type) v = minus_sign v
sign_before (unsigned type) v = []

abbrev pub magnitude : (type : IntType) → Value type → ℕ
magnitude (signed type) v = size v
magnitude (unsigned type) v = v

-- The signs that a type takes, the number with a sign, and the greatest size with a sign.
abbrev pub Takes : IntType → Sign → Type 0
Takes (signed type) sign = Unit
Takes (unsigned type) sign = is_minus sign ≡ false

abbrev pub number : (type : IntType) → Sign → ℕ → Value type
number (signed type) sign n = signed_value (is_minus sign) n
number (unsigned type) sign n = n

abbrev pub greatest : IntType → Sign → ℕ
greatest (signed type) sign = magnitude_limit type (is_minus sign)
greatest (unsigned type) sign = unsigned_max type

-- No number of the type follows the blanks and the sign.
abbrev pub NoNumber : Ctype → IntType → Sign → List ℕ → Type 0
NoNumber ct (signed type) sign rest = NoDigit ct sign rest
NoNumber ct (unsigned type) sign rest = NoUnsigned ct sign rest

-- For each of the eight types and every value of it: where the range has room for 20 characters, the
-- conversion to text succeeds, and the conversion from text reads the same value back from the text
-- and points behind it.
pub from_chars-to_chars :
    (ct : Ctype) (lawful : IsCtype ct) (type : IntType) (v : Value type) (pre old post : List ℕ)
    → Fits type v
    → length old ≡ max_len
    → let result = to_chars type (length pre) (length pre + max_len) v (pre ++ (old ++ post)) in
      (result.error ≡ ok)
      × (from_chars ct type (length pre) result.ptr result.buffer ≡ parsed result.ptr v)
unfolding from_chars to_chars
from_chars-to_chars ct lawful (signed type) v pre old post fits room =
    from_chars-to_chars_signed ct lawful type v pre old post fits room
from_chars-to_chars ct lawful (unsigned type) v pre old post fits room =
    from_chars-to_chars_unsigned ct lawful type v pre old post fits room

-- For each of the eight types: where the range [first, last) holds blanks, a sign that the type takes
-- or none and at least one digit, up to a character that is no digit or the end, and the type holds
-- the number that the digits spell with that sign, the conversion stores exactly that number,
-- reports no error and points behind the last digit.
pub from_chars_accepts :
    (ct : Ctype) (lawful : IsCtype ct) (type : IntType) (first last : ℕ) (buf blanks : List ℕ)
    (sign : Sign) (c : ℕ) (ds rest : List ℕ)
    → first < last
    → chars first last buf ≡ blanks ++ (sign_text sign ++ c ∷ (ds ++ rest))
    → All (λ b. ct.isspace b ≡ true) blanks
    → Takes type sign
    → All IsDigit (c ∷ ds)
    → Stops ct rest
    → value 0 (c ∷ ds) ≤ greatest type sign
    → from_chars ct type first last buf
      ≡ parsed
          (first + length blanks + length (sign_text sign) + 1 + length ds)
          (number type sign (value 0 (c ∷ ds)))
unfolding from_chars
from_chars_accepts ct lawful (signed type) first last buf blanks sign c ds rest nonempty text blank
      takes digits stops fits =
    from_chars_signed_accepts ct lawful type first last buf blanks sign c ds rest nonempty text
      blank digits stops fits
from_chars_accepts ct lawful (unsigned type) first last buf blanks sign c ds rest nonempty text
      blank takes digits stops fits =
    from_chars_unsigned_accepts ct lawful type first last buf blanks sign c ds rest nonempty text
      blank takes digits stops fits

-- For each of the eight types: where the digits up to and with `e` spell a number beyond what the
-- type holds with that sign and those before `e` do not, the conversion reports that the result is
-- out of range, points at `e` and stores nothing.
pub from_chars_overflows :
    (ct : Ctype) (lawful : IsCtype ct) (type : IntType) (first last : ℕ) (buf blanks : List ℕ)
    (sign : Sign) (c : ℕ) (ds : List ℕ) (e : ℕ) (rest : List ℕ)
    → first < last
    → chars first last buf ≡ blanks ++ (sign_text sign ++ c ∷ (ds ++ e ∷ rest))
    → All (λ b. ct.isspace b ≡ true) blanks
    → Takes type sign
    → All IsDigit (c ∷ ds)
    → IsDigit e
    → value 0 (c ∷ ds) ≤ greatest type sign
    → greatest type sign < value 0 (c ∷ ds) * 10 + (e - b'0')
    → from_chars ct type first last buf
      ≡ out_of_range (first + length blanks + length (sign_text sign) + 1 + length ds)
unfolding from_chars
from_chars_overflows ct lawful (signed type) first last buf blanks sign c ds e rest nonempty text
      blank takes digits digit fits exceeds =
    from_chars_signed_overflows ct lawful type first last buf blanks sign c ds e rest nonempty text
      blank digits digit fits exceeds
from_chars_overflows ct lawful (unsigned type) first last buf blanks sign c ds e rest nonempty text
      blank takes digits digit fits exceeds =
    from_chars_unsigned_overflows ct lawful type first last buf blanks sign c ds e rest nonempty
      text blank takes digits digit fits exceeds

-- For each of the eight types: where the blanks and a sign or none are followed by no digit, or the
-- sign is a minus and the type unsigned, the conversion reports an invalid argument, points at the
-- start and stores nothing.
pub from_chars_rejects :
    (ct : Ctype) (lawful : IsCtype ct) (type : IntType) (first last : ℕ) (buf blanks : List ℕ)
    (sign : Sign) (rest : List ℕ)
    → chars first last buf ≡ blanks ++ (sign_text sign ++ rest)
    → All (λ b. ct.isspace b ≡ true) blanks
    → NoNumber ct type sign rest
    → from_chars ct type first last buf ≡ invalid first
unfolding from_chars
from_chars_rejects ct lawful (signed type) first last buf blanks sign rest text blank no_number =
    from_chars_signed_rejects ct lawful type first last buf blanks sign rest text blank no_number
from_chars_rejects ct lawful (unsigned type) first last buf blanks sign rest text blank no_number =
    from_chars_unsigned_rejects ct lawful type first last buf blanks sign rest text blank no_number

-- For each of the eight types and every value of it: where the range starts behind `pre` and has room
-- for the decimal text of the value, the conversion writes that text, with a minus where the value is
-- negative, at the start of the range, changes nothing else of the buffer, reports no error and points
-- behind the text.
pub to_chars_writes :
    (type : IntType) (v : Value type) (last : ℕ) (pre old post ds : List ℕ)
    → Fits type v
    → IsNumeral (magnitude type v) ds
    → length old ≡ length (sign_before type v ++ ds)
    → length pre + length old ≤ last
    → to_chars type (length pre) last v (pre ++ (old ++ post))
      ≡ written (length pre + length old) (pre ++ ((sign_before type v ++ ds) ++ post))
unfolding to_chars
to_chars_writes (signed type) v last pre old post ds fits numeral same room =
    to_chars_signed_writes type v last pre old post ds fits numeral same room
to_chars_writes (unsigned type) v last pre old post ds fits numeral same room =
    to_chars_unsigned_writes type v last pre old post ds fits numeral same room

-- The buffer with the sign of the value.
abbrev pub signed_buffer : (type : IntType) → Value type → ℕ → List ℕ → List ℕ
signed_buffer (signed type) v first buf = Short.signed_buffer v first buf
signed_buffer (unsigned type) v first buf = buf

-- For each of the eight types and every value of it: where a range that is not empty is shorter than
-- the decimal text of the value with its sign, the conversion reports that the value is too large,
-- points at the end of the range and leaves the buffer as it was, but for the minus of a negative
-- value, which it has stored.
pub to_chars_refuses :
    (type : IntType) (v : Value type) (first last : ℕ) (buf ds : List ℕ)
    → Fits type v
    → IsNumeral (magnitude type v) ds
    → first < last
    → last < first + length (sign_before type v ++ ds)
    → to_chars type first last v buf ≡ too_large last (signed_buffer type v first buf)
unfolding to_chars
to_chars_refuses (signed type) v first last buf ds fits numeral room short =
    to_chars_signed_refuses type v first last buf ds fits numeral room short
to_chars_refuses (unsigned type) v first last buf ds fits numeral room short =
    to_chars_unsigned_refuses type v first last buf ds fits numeral room short
