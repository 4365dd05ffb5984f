-- ===== src/Charconv/ToChars/Signed.antt =====
-- The signed conversions to text of src/rbc/utils/charconv.c.
use mathlib.Core.List.{reverse}
use mathlib.Core.Path.{subst}
use rubidium_c.Prelude.{
  ℕ, suc, ◌+◌, ◌≤◌, ◌<◌, ◌≡◌, refl, sym, ap, Bool, true, false, ◌==◌, if◌then◌else◌, List, [], ◌∷◌,
  ◌++◌, length, set, set-append_length, arith, inl, inr, Bool-cases, ◌∙◌,
}
use rubidium_c.Prelude.Int.{ℤ, pos, negsuc, pos_part, neg_part, ◌-ℤ◌, ◌==ℤ◌, wrap}
use rubidium_c.Charconv.Types.{SignedType, signed_max, signed_min}
use rubidium_c.Charconv.ToChars.{written, write_number, to_chars_digits, to_chars_signed}
use rubidium_c.Charconv.ToChars.Digits.{
  lows, limit, positive, IsDecimal-lows, length-lows, IsDecimal, IsNumeral,
}
use rubidium_c.Charconv.ToChars.Buffer.{move, length-end}
use rubidium_c.Charconv.ToChars.Text.{write_decimal, write_least, length-reverse, signed_max-limit}
use rubidium_c.Charconv.FromChars.Text.{not_below, add_suc}

-- The values of the type, and a value as its sign and its size.
abbrev pub InRange : SignedType → ℤ → Type 0
InRange type v = (pos_part v ≤ signed_max type) × (neg_part v ≤ suc (signed_max type))

abbrev pub size : ℤ → ℕ
size (pos n) = n
size (negsuc n) = suc n

abbrev pub minus_sign : ℤ → List ℕ
minus_sign (pos n) = []
minus_sign (negsuc n) = b'-' ∷ []

IsDecimal-nonempty : (n : ℕ) (ds : List ℕ) → IsDecimal n ds → 0 < length ds
IsDecimal-nonempty n [] h = elim h [ ]
IsDecimal-nonempty n (c ∷ ds) h = omega arith

-- There is room for a digit, so the test of the pointers passes.
digits_written :
    (is_min : Bool) (n m last : ℕ) (pre old post ds : List ℕ)
    → IsDecimal m ds
    → length old ≡ length ds
    → length pre + length old ≤ last
    → write_number is_min (length pre) last n (pre ++ (old ++ post))
      ≡ written (length pre + length old) (pre ++ (ds ++ post))
    → to_chars_digits is_min (length pre) last n (pre ++ (old ++ post))
      ≡ written (length pre + length old) (pre ++ (ds ++ post))
unfolding to_chars_digits
digits_written is_min n m last pre old post ds decimal same room stored =
    ground (arith, IsDecimal-nonempty m ds decimal, stored)

pub least-eq :
    (type : SignedType) (n : ℕ) → (negsuc n ==ℤ signed_min type) ≡ true → n ≡ signed_max type
least-eq type n least = ground arith

pub negated :
    (type : SignedType) (n : ℕ)
    → n ≤ signed_max type
    → (negsuc n ==ℤ signed_min type) ≡ false
    → wrap (suc (signed_max type)) (pos 0 -ℤ negsuc n) ≡ pos (suc n)
negated type n fits other = unfold ◌-ℤ◌ wrap in ground arith

negative_digits :
    (type : SignedType) (n last : ℕ) (pre old post ds : List ℕ)
    → n ≤ signed_max type
    → IsDecimal (suc n) ds
    → length old ≡ length ds
    → length pre + length old ≤ last
    → to_chars_digits
        (negsuc n ==ℤ signed_min type)
        (length pre)
        last
        (pos_part (
          if negsuc n ==ℤ signed_min type
          then pos (signed_max type)
          else wrap (suc (signed_max type)) (pos 0 -ℤ negsuc n)))
        (pre ++ (old ++ post))
      ≡ written (length pre + length old) (pre ++ (ds ++ post))
negative_digits type n last pre old post ds fits decimal same room =
    elim (Bool-cases (negsuc n ==ℤ signed_min type)) [
      | inl least ↦
          let least_decimal = subst (λ m. IsDecimal (suc m) ds) (least-eq type n least) decimal in
          rw least (
            digits_written true (signed_max type) (suc (signed_max type)) last pre old post ds
              least_decimal same room
              (write_least type last pre old post ds least_decimal same room))
      | inr other ↦
          rw (other, negated type n fits other)
            (digits_written false (suc n) (suc n) last pre old post ds decimal same room (
              write_decimal (suc n) last pre old post ds (omega (arith, signed_max-limit type))
                decimal same room))
    ]

-- Which way the code goes.
pub signed-pos :
    (type : SignedType) (n first last : ℕ) (buf : List ℕ)
    → 0 < n
    → n ≤ signed_max type
    → first < last
    → to_chars_signed type first last (pos n) buf ≡ to_chars_digits false first last n buf
unfolding to_chars_signed
signed-pos type n first last buf large fits room = ground (arith, large)

pub signed-negsuc :
    (type : SignedType) (n first last : ℕ) (buf : List ℕ)
    → first < last
    → to_chars_signed type first last (negsuc n) buf
      ≡ to_chars_digits
          (negsuc n ==ℤ signed_min type)
          (first + 1)
          last
          (pos_part (
            if negsuc n ==ℤ signed_min type
            then pos (signed_max type)
            else wrap (suc (signed_max type)) (pos 0 -ℤ negsuc n)))
          (set buf first b'-')
unfolding to_chars_signed
signed-negsuc type n first last buf room = ground arith

sign_written :
    (type : SignedType) (n last : ℕ) (pre : List ℕ) (o : ℕ) (rest : List ℕ)
    → length pre < last
    → to_chars_signed type (length pre) last (negsuc n) (pre ++ o ∷ rest)
      ≡ to_chars_digits
          (negsuc n ==ℤ signed_min type)
          (length (pre ++ b'-' ∷ []))
          last
          (pos_part (
            if negsuc n ==ℤ signed_min type
            then pos (signed_max type)
            else wrap (suc (signed_max type)) (pos 0 -ℤ negsuc n)))
          ((pre ++ b'-' ∷ []) ++ rest)
sign_written type n last pre o rest room =
    rw
      (
        signed-negsuc type n (length pre) last (pre ++ o ∷ rest) room,
        set-append_length pre o rest b'-',
        move pre b'-' rest,
        length-end pre b'-',
      )
      refl

zero_written :
    (type : SignedType) (last : ℕ) (pre old post : List ℕ)
    → length old ≡ 1
    → length pre + length old ≤ last
    → to_chars_signed type (length pre) last (pos 0) (pre ++ (old ++ post))
      ≡ written (length pre + length old) (pre ++ b'0' ∷ post)
unfolding to_chars_signed
zero_written type last pre [] post same room = ground (arith, same)
zero_written type last pre (o ∷ []) post same room =
    rw (not_below (length pre) last (omega arith), set-append_length pre o post b'0') refl
zero_written type last pre (o ∷ o' ∷ old) post same room = absurd (omega (arith, same))

-- For every signed type and every value of it: where the range starts behind `pre` and has room for
-- the decimal text of the value, a minus in front of the negative ones, the conversion writes that
-- text at the start of the range, changes nothing else of the buffer, reports no error and points
-- behind the text.
pub to_chars_signed_writes :
    (type : SignedType) (v : ℤ) (last : ℕ) (pre old post ds : List ℕ)
    → InRange type v
    → IsNumeral (size v) ds
    → length old ≡ length (minus_sign v ++ ds)
    → length pre + length old ≤ last
    → to_chars_signed type (length pre) last v (pre ++ (old ++ post))
      ≡ written (length pre + length old) (pre ++ ((minus_sign v ++ ds) ++ post))
to_chars_signed_writes type (pos n) last pre old post ds range (inl (zero_n, text)) same room =
    rw (zero_n, text) (zero_written type last pre old post (same ∙ ap length text) room)
to_chars_signed_writes type (pos n) last pre old post ds range (inr decimal) same room =
    signed-pos type n (length pre) last (pre ++ (old ++ post)) (positive n ds decimal) range.0
      (omega (arith, same, IsDecimal-nonempty n ds decimal))
    ∙ digits_written false n n last pre old post ds decimal same room (
        write_decimal n last pre old post ds (omega (arith, signed_max-limit type)) decimal same
          room)
to_chars_signed_writes type (negsuc n) last pre [] post ds range numeral same room =
    absurd (omega (arith, same))
to_chars_signed_writes type (negsuc n) last pre (o ∷ old) post ds range (inl (zero_n, text)) same
      room =
    absurd (omega arith)
to_chars_signed_writes type (negsuc n) last pre (o ∷ old) post ds range (inr decimal) same room =
    sign_written type n last pre o (old ++ post) (omega arith)
    ∙ negative_digits type n last (pre ++ b'-' ∷ []) old post ds (omega arith) decimal
        (omega (arith, same)) (omega (arith, length-end pre b'-'))
    ∙ rw (length-end pre b'-', sym (move pre b'-' (ds ++ post)), add_suc (length pre) (length old))
        refl

-- Every number of 19 digits at most has a decimal text of that length at most.
pub numeral : (n : ℕ) → n < limit 19 → (ds : List ℕ) × IsNumeral n ds × (length ds ≤ 19)
numeral n fits = elim (Bool-cases (n == 0)) [
  | inl none ↦ (b'0' ∷ [], inl (ground arith, refl), omega arith)
  | inr some ↦ (
    reverse (lows 19 n),
    inr (IsDecimal-lows 18 n fits (ground arith)),
    omega (arith, length-reverse (lows 19 n), length-lows 19 n),
  )
]
