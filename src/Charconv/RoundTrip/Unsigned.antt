-- ===== src/Charconv/RoundTrip/Unsigned.antt =====
-- The round trip of the unsigned conversions of src/rbc/utils/charconv.c.
use mathlib.Core.List.{append_assoc, append-nil, reverse}
use mathlib.Core.Path.{subst}
use rubidium_c.Prelude.{
  ℕ, ◌+◌, ◌≤◌, ◌<◌, ◌≡◌, ◌==◌, refl, sym, List, [], ◌∷◌, ◌++◌, length, take, drop, take-append-drop,
  length-take, arith, inl, inr, ◌∙◌, Bool-cases,
}
use rubidium_c.Core.Error.{ok}
use rubidium_c.Charconv.Types.{Ctype, IsCtype, UnsignedType, unsigned_max}
use rubidium_c.Charconv.FromChars.{from_chars_unsigned, parsed}
use rubidium_c.Charconv.FromChars.Text.{unsigned}
use rubidium_c.Charconv.FromChars.Unsigned.{from_chars_unsigned_accepts}
use rubidium_c.Charconv.ToChars.{max_len, to_chars_unsigned}
use rubidium_c.Charconv.ToChars.Digits.{IsNumeral, limit, lows, IsDecimal-lows, length-lows}
use rubidium_c.Charconv.ToChars.Text.{length-reverse}
use rubidium_c.Charconv.ToChars.Unsigned.{unsigned_max-limit, to_chars_unsigned_writes}
use rubidium_c.Charconv.RoundTrip.{chars-middle, IsNumeral-digits}

-- Every number of 20 digits at most has a decimal text of that length at most.
numeral : (n : ℕ) → n < limit max_len → (ds : List ℕ) × IsNumeral n ds × (length ds ≤ max_len)
numeral n fits = elim (Bool-cases (n == 0)) [
  | inl none ↦ (b'0' ∷ [], inl (ground arith, refl), omega arith)
  | inr some ↦ (
    reverse (lows 20 n),
    inr (IsDecimal-lows 19 n fits (ground arith)),
    omega (arith, length-reverse (lows 20 n), length-lows 20 n),
  )
]

end-eq : (first c : ℕ) (ds : List ℕ) → first + 0 + 0 + 1 + length ds ≡ first + length (c ∷ ds)
end-eq first c ds = omega arith

reads_numeral :
    (ct : Ctype) (lawful : IsCtype ct) (type : UnsignedType) (n : ℕ) (pre post ds : List ℕ)
    → n ≤ unsigned_max type
    → IsNumeral n ds
    → from_chars_unsigned ct type (length pre) (length pre + length ds) (pre ++ (ds ++ post))
      ≡ parsed (length pre + length ds) n
reads_numeral ct lawful type n pre post [] range text = ground (arith, IsNumeral-digits n [] text)
reads_numeral ct lawful type n pre post (c ∷ ds) range text =
    let (digits, spells, _) = IsNumeral-digits n (c ∷ ds) text in
    from_chars_unsigned_accepts ct lawful type (length pre) (length pre + length (c ∷ ds))
      (pre ++ ((c ∷ ds) ++ post)) [] unsigned c ds [] (omega arith)
      (chars-middle pre (c ∷ ds) post ∙ sym (append-nil (c ∷ ds))) tt refl digits tt
      (rw spells range)
    ∙ rw (spells, end-eq (length pre) c ds) refl

-- With the part of the range that the text takes split off.
reads_written :
    (ct : Ctype) (lawful : IsCtype ct) (type : UnsignedType) (n : ℕ)
    (pre used left post ds : List ℕ)
    → n ≤ unsigned_max type
    → IsNumeral n ds
    → length used ≡ length ds
    → length used ≤ max_len
    → let result =
        to_chars_unsigned type
          (length pre)
          (length pre + max_len)
          n
          (pre ++ ((used ++ left) ++ post)) in
      (result.error ≡ ok)
      × (from_chars_unsigned ct type (length pre) result.ptr result.buffer ≡ parsed result.ptr n)
reads_written ct lawful type n pre used left post ds range text same room =
    rw
      (
        append_assoc used left post,
        to_chars_unsigned_writes type n (length pre + max_len) pre used (left ++ post) ds range text
            same (omega arith),
        same,
      )
      (refl, reads_numeral ct lawful type n pre (left ++ post) ds range text)

-- For every unsigned type and every value of it: where the range has room for 20 characters, the
-- conversion to text succeeds, and the conversion from text reads the same value back from the text
-- and points behind it.
pub from_chars-to_chars_unsigned :
    (ct : Ctype) (lawful : IsCtype ct) (type : UnsignedType) (n : ℕ) (pre old post : List ℕ)
    → n ≤ unsigned_max type
    → length old ≡ max_len
    → let result =
        to_chars_unsigned type (length pre) (length pre + max_len) n (pre ++ (old ++ post)) in
      (result.error ≡ ok)
      × (from_chars_unsigned ct type (length pre) result.ptr result.buffer ≡ parsed result.ptr n)
from_chars-to_chars_unsigned ct lawful type n pre old post range room =
    let (ds, text, short) = numeral n (omega (arith, unsigned_max-limit type)) in
    subst
      (λ all.
        let result =
          to_chars_unsigned type (length pre) (length pre + max_len) n (pre ++ (all ++ post)) in
        (result.error ≡ ok)
        × (from_chars_unsigned ct type (length pre) result.ptr result.buffer ≡ parsed result.ptr n))
      (take-append-drop (length ds) old)
      (reads_written ct lawful type n pre (take (length ds) old) (drop (length ds) old) post ds
        range text (omega (arith, length-take (length ds) old, short))
        (omega (arith, length-take (length ds) old, room)))
