-- ===== src/Charconv/FromChars/Signed.antt =====
-- The loop of the signed conversions of src/rbc/utils/charconv.c.
use rubidium_c.Prelude.{
  ℕ, suc, ◌+◌, ◌-◌, ◌*◌, ◌/◌, ◌≤◌, ◌<◌, ◌≡◌, refl, Bool, true, false, leb, if◌then◌else◌, List, [],
  ◌∷◌, ◌++◌, length, All, arith, not, ◌&&◌, ◌||◌, inl, inr, le_or_lt, ◌∙◌,
}
use rubidium_c.Prelude.Int.{ℤ, sub_ℕ, pos, ◌+ℤ◌, ◌-ℤ◌, ◌*ℤ◌, ◌==ℤ◌, ltb_ℤ, wrap}
use rubidium_c.Prelude.Wrap.{wrap_same}
use rubidium_c.Charconv.Types.{Ctype, IsCtype, SignedType, signed_max, signed_min}
use rubidium_c.Charconv.FromChars.{signed_loop, signed_finish, parsed, out_of_range}
use rubidium_c.Charconv.FromChars.Text.{
  value, IsDigit, Stops, signed_value, magnitude_limit, le-value, signed_max_mod, add_zero, add_suc,
  digit-leb,
}

-- What the variables `x` and `is_min` hold for a number `n` read so far.
abbrev pub held : SignedType → ℕ → ℤ
held type n = if leb n (signed_max type) then pos n else signed_min type

abbrev pub held_min : SignedType → ℕ → Bool
held_min type n = if leb n (signed_max type) then false else true

pub held-digit : (type : SignedType) (d : ℕ) → d < 10 → held type (0 + d) ≡ pos d
held-digit type d small = ground (arith, signed_max_mod type)

pub held_min-digit : (type : SignedType) (d : ℕ) → d < 10 → held_min type (0 + d) ≡ false
held_min-digit type d small = ground (arith, signed_max_mod type)

module _ (ct : Ctype) (lawful : IsCtype ct) (type : SignedType) (neg : Bool) where
  times_ten : (n : ℕ) → pos n *ℤ 10 ≡ pos (n * 10)
  times_ten n = unfold ◌*ℤ◌ in ground arith

  -- One more digit `d` behind `n`, with the sum still in range.
  module _ (n d : ℕ) (small : d < 10) (fits : n * 10 + d ≤ magnitude_limit type neg) where
    below_tenth : n ≤ signed_max type / 10
    below_tenth = ground (arith, signed_max_mod type)

    held-below : held type n ≡ pos n
    held-below = ground (arith, below_tenth)

    held_min-below : held_min type n ≡ false
    held_min-below = ground (arith, below_tenth)

    plus_digit : pos (n * 10) +ℤ pos d ≡ pos (n * 10 + d)
    plus_digit = unfold ◌+ℤ◌ in ground arith

    x10-eq : wrap (suc (signed_max type)) (pos n *ℤ 10) ≡ pos (n * 10)
    x10-eq = rw (times_ten n) (
        wrap_same (suc (signed_max type)) (pos (n * 10)) (omega (arith, below_tenth)) (omega arith))

    is_min-eq :
        ((pos 0 -ℤ pos (n * 10)) ==ℤ (signed_min type +ℤ pos d)) ≡ held_min type (n * 10 + d)
    is_min-eq = unfold ◌+ℤ◌ ◌-ℤ◌ in ground (arith, below_tenth)

    x-eq : wrap (suc (signed_max type)) (pos (n * 10) +ℤ pos d) ≡ held type (n * 10 + d)
    x-eq = rw plus_digit (unfold wrap in ground (arith, below_tenth))

    in_range :
        (not neg && ltb_ℤ (pos (signed_max type) -ℤ pos d) (pos (n * 10))
          || neg && ltb_ℤ (pos 0 -ℤ pos (n * 10)) (signed_min type +ℤ pos d))
        ≡ false
    in_range = unfold ◌+ℤ◌ ◌-ℤ◌ in ground (arith, below_tenth)

    first_test : (held_min type n || ltb_ℤ (pos (signed_max type / 10)) (held type n)) ≡ false
    first_test = rw (held-below, held_min-below) (ground (arith, below_tenth))

  step :
      (c : ℕ) (rest : List ℕ) (ptr n : ℕ)
      → IsDigit c
      → n * 10 + (c - b'0') ≤ magnitude_limit type neg
      → signed_loop ct type neg (c ∷ rest) ptr (held type n) (held_min type n)
        ≡ signed_loop ct type neg rest
            (ptr + 1)
            (held type (n * 10 + (c - b'0')))
            (held_min type (n * 10 + (c - b'0')))
  unfolding signed_loop
  step c rest ptr n digit fits =
      rw
        (
          lawful.digits c,
          digit-leb c digit,
          first_test n d small fits,
          held-below n d small fits,
          x10-eq n d small fits,
          in_range n d small fits,
          is_min-eq n d small fits,
          x-eq n d small fits,
        )
        refl
    where
      d : ℕ
      d = c - b'0'

      small : c - b'0' < 10
      small = omega arith

  -- Digits are read as long as the type holds what they spell.
  pub loop_reads :
      (n : ℕ) (ds : List ℕ) (rest : List ℕ) (ptr : ℕ)
      → All IsDigit ds
      → value n ds ≤ magnitude_limit type neg
      → signed_loop ct type neg (ds ++ rest) ptr (held type n) (held_min type n)
        ≡ signed_loop ct type neg rest
            (ptr + length ds)
            (held type (value n ds))
            (held_min type (value n ds))
  loop_reads n [] rest ptr digits fits = rw (add_zero ptr) refl
  loop_reads n (c ∷ ds) rest ptr (digit, digits) fits =
      step c (ds ++ rest) ptr n digit (omega (arith, le-value (n * 10 + (c - b'0')) ds))
      ∙ loop_reads (n * 10 + (c - b'0')) ds rest (ptr + 1) digits fits
      ∙ rw (add_suc ptr (length ds)) refl

  -- The two tests on a digit `d` behind `n` with which the number exceeds the limit.
  module _ (n d : ℕ) (small : d < 10) (exceeds : magnitude_limit type neg < n * 10 + d) where
    above_tenth :
        (n ≤ magnitude_limit type neg)
        → (signed_max type / 10 < n)
        → (held_min type n || ltb_ℤ (pos (signed_max type / 10)) (held type n)) ≡ true
    above_tenth fits above = ground (arith, signed_max_mod type)

    below-held : n ≤ signed_max type / 10 → held type n ≡ pos n
    below-held below = ground (arith, signed_max_mod type)

    below-first_test :
        n ≤ signed_max type / 10
        → (held_min type n || ltb_ℤ (pos (signed_max type / 10)) (held type n)) ≡ false
    below-first_test below = ground (arith, signed_max_mod type)

    below-x10 : n ≤ signed_max type / 10 → wrap (suc (signed_max type)) (pos n *ℤ 10) ≡ pos (n * 10)
    below-x10 below =
        rw (times_ten n)
          (wrap_same (suc (signed_max type)) (pos (n * 10)) (omega (arith, below)) (omega arith))

    below-out :
        n ≤ signed_max type / 10
        → (not neg && ltb_ℤ (pos (signed_max type) -ℤ pos d) (pos (n * 10))
            || neg && ltb_ℤ (pos 0 -ℤ pos (n * 10)) (signed_min type +ℤ pos d))
          ≡ true
    below-out below = unfold ◌+ℤ◌ ◌-ℤ◌ in ground (arith, below)

  -- A digit with which the number exceeds the limit ends the conversion.
  pub loop_overflows :
      (c : ℕ) (rest : List ℕ) (ptr n : ℕ)
      → IsDigit c
      → n ≤ magnitude_limit type neg
      → magnitude_limit type neg < n * 10 + (c - b'0')
      → signed_loop ct type neg (c ∷ rest) ptr (held type n) (held_min type n) ≡ out_of_range ptr
  unfolding signed_loop
  loop_overflows c rest ptr n digit fits exceeds = elim (le_or_lt n (signed_max type / 10)) [
    | inl below ↦
        rw
          (
            lawful.digits c,
            digit-leb c digit,
            below-first_test n (c - b'0') small exceeds below,
            below-held n (c - b'0') small exceeds below,
            below-x10 n (c - b'0') small exceeds below,
            below-out n (c - b'0') small exceeds below,
          )
          refl
    | inr above ↦
        rw (lawful.digits c, digit-leb c digit, above_tenth n (c - b'0') small exceeds fits above)
          refl
  ]
    where
      small : c - b'0' < 10
      small = omega arith

  negated :
      (n : ℕ) → n ≤ signed_max type → wrap (suc (signed_max type)) (pos 0 -ℤ pos n) ≡ sub_ℕ 0 n
  negated n below = unfold ◌-ℤ◌ sub_ℕ wrap in ground arith

  finish :
      (ptr n : ℕ)
      → n ≤ magnitude_limit type neg
      → signed_finish ct type neg ptr (held type n) (held_min type n)
        ≡ parsed ptr (signed_value neg n)
  unfolding signed_finish
  finish ptr n fits = ground (arith, negated n)

  pub loop_ends :
      (rest : List ℕ) (ptr n : ℕ)
      → Stops ct rest
      → n ≤ magnitude_limit type neg
      → signed_loop ct type neg rest ptr (held type n) (held_min type n)
        ≡ parsed ptr (signed_value neg n)
  unfolding signed_loop
  loop_ends [] ptr n stops fits = finish ptr n fits
  loop_ends (c ∷ rest) ptr n stops fits = rw stops (finish ptr n fits)
