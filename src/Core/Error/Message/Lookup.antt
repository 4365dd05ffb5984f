-- ===== src/Core/Error/Message/Lookup.antt =====
-- What `rbc_error_to_string` of src/rbc/core/error.c finds.
use mathlib.Core.Bool.{true≢false}
use rubidium_c.Prelude.{
  ℕ, zero, suc, ◌≡◌, ◌≢◌, refl, sym, ap, ◌∙◌, false, if◌then◌else◌, inl, inr, Bool-cases,
  some-injective, some, List, [], ◌∷◌, get_elem?, arith,
}
use rubidium_c.Prelude.Int.{ℤ, ◌==ℤ◌, ==ℤ_self, ==ℤ_equal}
use rubidium_c.Core.Error.{Error, not_supported, resource_unavailable_try_again}
use rubidium_c.Core.Error.Table.{message, cases}
use rubidium_c.Core.Error.Position.{has_case}
use rubidium_c.Core.Error.Message.{switch, to_string}

-- No two labels of the switch have the same number: the source would not compile otherwise.
abbrev pub HasDistinctCases : (Error → ℤ) → Type 0
HasDistinctCases value =
    (i j : ℕ) (d e : Error)
    → get_elem? cases i ≡ some d
    → get_elem? cases j ≡ some e
    → value d ≡ value e
    → d ≡ e

-- The code that is named for a number: POSIX allows ENOTSUP and EOPNOTSUPP to be the same, and
-- EAGAIN and EWOULDBLOCK, and the first of each is preferred.
abbrev pub spoken : (Error → ℤ) → Error → Error
spoken value e =
    if value e ==ℤ value not_supported
    then not_supported
    else if value e ==ℤ value resource_unavailable_try_again
    then resource_unavailable_try_again
    else e

==ℤ_apart : (a b : ℤ) → a ≢ b → (a ==ℤ b) ≡ false
==ℤ_apart a b differ = elim (Bool-cases (a ==ℤ b)) [
  | inl same ↦ absurd (differ (==ℤ_equal a b same))
  | inr apart ↦ apart
]

module _ (value : Error → ℤ) where
  switch_finds :
      (e : Error) (es : List Error) (i : ℕ)
      → get_elem? es i ≡ some e
      → ((j : ℕ) (d : Error) → get_elem? es j ≡ some d → value d ≡ value e → d ≡ e)
      → switch value (value e) es ≡ message e
  unfolding switch
  switch_finds e [] i found distinct = ground arith
  switch_finds e (d ∷ es) zero found distinct =
      rw (ap value (some-injective found), ==ℤ_self (value e)) (ap message (some-injective found))
  switch_finds e (d ∷ es) (suc i) found distinct = elim (Bool-cases (value d ==ℤ value e)) [
    | inl same ↦ rw (same) (ap message (distinct 0 d refl (==ℤ_equal (value d) (value e) same)))
    | inr apart ↦ rw (apart) (switch_finds e es i found (λ j c at. distinct (suc j) c at))
  ]

  switch_misses :
      (code : ℤ) (es : List Error)
      → ((e : Error) → value e ≢ code)
      → switch value code es ≡ "Undefined error"
  unfolding switch
  switch_misses code [] absent = refl
  switch_misses code (e ∷ es) absent =
      rw (==ℤ_apart (value e) code (absent e)) (switch_misses code es absent)

  -- Where the labels of the switch are distinct, every error code gets its own message, or that of the
  -- preferred code of the same number.
  pub to_string_named :
      (e : Error) → HasDistinctCases value → to_string value (value e) ≡ message (spoken value e)
  unfolding to_string
  to_string_named e distinct = elim (Bool-cases (value e ==ℤ value not_supported)) [
    | inl same ↦ rw (same) refl
    | inr apart ↦ elim (Bool-cases (value e ==ℤ value resource_unavailable_try_again)) [
      | inl same ↦ rw (apart, same) refl
      | inr later ↦
          rw (apart, later)
            (elim (has_case e) [
              | inl is_first ↦ absurd (
                  true≢false
                    (sym (==ℤ_self (value e)) ∙ ap (λ d. value e ==ℤ value d) is_first ∙ apart))
              | inr (inl is_second) ↦ absurd (
                  true≢false
                    (sym (==ℤ_self (value e)) ∙ ap (λ d. value e ==ℤ value d) is_second ∙ later))
              | inr (inr (i, found)) ↦
                  switch_finds e cases i found (λ j d at. distinct j i d e at found)
            ])
    ]
  ]

  -- A number that no error code has gets the text for undefined errors.
  pub to_string_undefined :
      (code : ℤ) → ((e : Error) → value e ≢ code) → to_string value code ≡ "Undefined error"
  unfolding to_string
  to_string_undefined code absent =
      rw
        (
          ==ℤ_apart code (value not_supported) (λ same. absent not_supported (sym same)),
          ==ℤ_apart code (value resource_unavailable_try_again)
              (λ same. absent resource_unavailable_try_again (sym same)),
        )
        (switch_misses code cases absent)
