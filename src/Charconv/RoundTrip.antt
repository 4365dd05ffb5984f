-- ===== src/Charconv/RoundTrip.antt =====
-- What the conversions to text of src/rbc/utils/charconv.c write is what those from text read.
pub mod Unsigned
use mathlib.Core.List.{append_assoc, append-nil}
use mathlib.Core.Path.{subst}
use rubidium_c.Prelude.{
  ℕ, ◌+◌, ◌-◌, ◌≤◌, ◌<◌, ◌≡◌, refl, sym, ap, List, [], ◌∷◌, ◌++◌, length, take, drop,
  take-append-drop, take-length-append, drop-length-append, length-append, length-take, All, arith,
  inl, inr, ◌∙◌,
}
use rubidium_c.Prelude.Int.{ℤ, pos, negsuc}
use rubidium_c.Core.Error.{ok}
use rubidium_c.Charconv.Types.{Ctype, IsCtype, SignedType, chars}
use rubidium_c.Charconv.FromChars.{from_chars_signed, parsed}
use rubidium_c.Charconv.FromChars.Text.{
  value, IsDigit, Sign, unsigned, minus, sign_text, is_minus, signed_value, magnitude_limit,
}
use rubidium_c.Charconv.FromChars.Accepts.{from_chars_signed_accepts}
use rubidium_c.Charconv.ToChars.{max_len, to_chars_signed}
use rubidium_c.Charconv.ToChars.Digits.{IsNumeral, limit}
use rubidium_c.Charconv.ToChars.Text.{signed_max-limit}
use rubidium_c.Charconv.ToChars.Signed.{InRange, size, minus_sign, numeral, to_chars_signed_writes}

abbrev sign_of : ℤ → Sign
sign_of (pos n) = unsigned
sign_of (negsuc n) = minus

minus_front : (a b : ℕ) → a + b - a ≡ b
minus_front a b = omega arith

pub chars-middle :
    (pre text post : List ℕ)
    → chars (length pre) (length pre + length text) (pre ++ (text ++ post)) ≡ text
chars-middle pre text post =
    rw (drop-length-append pre (text ++ post), minus_front (length pre) (length text))
      (take-length-append text post)

pub IsNumeral-digits :
    (n : ℕ) (ds : List ℕ) → IsNumeral n ds → All IsDigit ds × (value 0 ds ≡ n) × (0 < length ds)
IsNumeral-digits n ds (inl (none, text)) =
    rw (none, text) (((omega arith, omega arith), tt), omega arith, omega arith)
IsNumeral-digits n [] (inr decimal) = elim decimal [ ]
IsNumeral-digits n (c ∷ ds) (inr (nonzero, digits, spells)) = (digits, spells, omega arith)

text-eq : (v : ℤ) (ds : List ℕ) → minus_sign v ++ ds ≡ sign_text (sign_of v) ++ (ds ++ [])
text-eq (pos n) ds = sym (append-nil ds)
text-eq (negsuc n) ds = ap (λ zs. b'-' ∷ zs) (sym (append-nil ds))

limit-size :
    (type : SignedType) (v : ℤ)
    → InRange type v
    → size v ≤ magnitude_limit type (is_minus (sign_of v))
limit-size type (pos n) range = omega arith
limit-size type (negsuc n) range = omega arith

value-size : (v : ℤ) → signed_value (is_minus (sign_of v)) (size v) ≡ v
value-size (pos n) = refl
value-size (negsuc n) = ground arith

end-eq :
    (v : ℤ) (first : ℕ) (c : ℕ) (ds : List ℕ)
    → first + 0 + length (sign_text (sign_of v)) + 1 + length ds
      ≡ first + length (minus_sign v ++ c ∷ ds)
end-eq (pos n) first c ds = omega arith
end-eq (negsuc n) first c ds = omega arith

reads_numeral :
    (ct : Ctype) (lawful : IsCtype ct) (type : SignedType) (v : ℤ) (pre post ds : List ℕ)
    → InRange type v
    → IsNumeral (size v) ds
    → from_chars_signed ct type
        (length pre)
        (length pre + length (minus_sign v ++ ds))
        (pre ++ ((minus_sign v ++ ds) ++ post))
      ≡ parsed (length pre + length (minus_sign v ++ ds)) v
reads_numeral ct lawful type v pre post [] range text =
    ground (arith, IsNumeral-digits (size v) [] text)
reads_numeral ct lawful type v pre post (c ∷ ds) range text =
    let (digits, spells, _) = IsNumeral-digits (size v) (c ∷ ds) text in
    from_chars_signed_accepts ct lawful type (length pre)
      (length pre + length (minus_sign v ++ c ∷ ds)) (pre ++ ((minus_sign v ++ c ∷ ds) ++ post)) []
      (sign_of v) c ds [] (omega (arith, length-append (minus_sign v) (c ∷ ds)))
      (chars-middle pre (minus_sign v ++ c ∷ ds) post ∙ text-eq v (c ∷ ds)) tt digits tt
      (rw spells (limit-size type v range))
    ∙ rw (spells, value-size v, end-eq v (length pre) c ds) refl

-- With the part of the range that the text takes split off.
reads_written :
    (ct : Ctype) (lawful : IsCtype ct) (type : SignedType) (v : ℤ) (pre used left post ds : List ℕ)
    → InRange type v
    → IsNumeral (size v) ds
    → length used ≡ length (minus_sign v ++ ds)
    → length used ≤ max_len
    → let result =
        to_chars_signed type
          (length pre)
          (length pre + max_len)
          v
          (pre ++ ((used ++ left) ++ post)) in
      (result.error ≡ ok)
      × (from_chars_signed ct type (length pre) result.ptr result.buffer ≡ parsed result.ptr v)
reads_written ct lawful type v pre used left post ds range text same room =
    rw
      (
        append_assoc used left post,
        to_chars_signed_writes type v (length pre + max_len) pre used (left ++ post) ds range text
            same (omega arith),
        same,
      )
      (refl, reads_numeral ct lawful type v pre (left ++ post) ds range text)

minus_sign-short : (v : ℤ) → length (minus_sign v) ≤ 1
minus_sign-short (pos n) = omega arith
minus_sign-short (negsuc n) = omega arith

size-limit : (type : SignedType) (v : ℤ) → InRange type v → size v < limit 19
size-limit type (pos n) range = omega (arith, signed_max-limit type)
size-limit type (negsuc n) range = omega (arith, signed_max-limit type)

-- For every signed type and every value of it: where the range has room for 20 characters, the
-- conversion to text succeeds, and the conversion from text reads the same value back from the text
-- and points behind it.
pub from_chars-to_chars_signed :
    (ct : Ctype) (lawful : IsCtype ct) (type : SignedType) (v : ℤ) (pre old post : List ℕ)
    → InRange type v
    → length old ≡ max_len
    → let result =
        to_chars_signed type (length pre) (length pre + max_len) v (pre ++ (old ++ post)) in
      (result.error ≡ ok)
      × (from_chars_signed ct type (length pre) result.ptr result.buffer ≡ parsed result.ptr v)
from_chars-to_chars_signed ct lawful type v pre old post range room =
    let (ds, text, short) = numeral (size v) (size-limit type v range) in
    let len = length (minus_sign v ++ ds) in
    subst
      (λ all.
        let result =
          to_chars_signed type (length pre) (length pre + max_len) v (pre ++ (all ++ post)) in
        (result.error ≡ ok)
        × (from_chars_signed ct type (length pre) result.ptr result.buffer ≡ parsed result.ptr v))
      (take-append-drop len old)
      (reads_written ct lawful type v pre (take len old) (drop len old) post ds range text
        (omega
          (arith, length-take len old, length-append (minus_sign v) ds, minus_sign-short v, short))
        (omega (arith, length-take len old, room)))
