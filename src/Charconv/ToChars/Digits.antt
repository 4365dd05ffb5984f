-- ===== src/Charconv/ToChars/Digits.antt =====
-- Decimal texts, against which the conversions of src/rbc/utils/charconv.c are stated: the digits
-- that the loop over `value % 10` yields, last one first, are the decimal text turned round.
use mathlib.Core.List.{reverse, reverse-cons, foldl-append}
use mathlib.Core.Path.{subst}
use rubidium_c.Prelude.{
  ℕ, zero, suc, ◌+◌, ◌-◌, ◌*◌, ◌/◌, ◌%◌, ◌≤◌, ◌<◌, ◌≡◌, ◌≢◌, refl, sym, ap, false, ◌==◌,
  if◌then◌else◌, List, [], ◌∷◌, ◌++◌, length, All, All-append, All-split, arith, ◌⊎◌, inl, inr,
  Bool-cases, ◌∙◌,
}
use rubidium_c.Charconv.FromChars.Text.{value, IsDigit, le-value, zero_add}

-- The digits of a number as the loop yields them, and the first number for which the fuel is short.
unfoldable pub lows : ℕ → ℕ → List ℕ
lows zero n = []
lows (suc fuel) n = let rest = lows fuel (n / 10) in if n == 0 then [] else (b'0' + n % 10) ∷ rest

abbrev pub limit : ℕ → ℕ
limit zero = 1
limit (suc fuel) = limit fuel * 10

split_ten : (q : ℕ) → q / 10 * 10 + q % 10 ≡ q
split_ten q = omega arith

-- The decimal text of a positive number: digits that spell it, with no zero in front.
abbrev pub IsDecimal : ℕ → List ℕ → Type 0
IsDecimal n [] = ⊥
IsDecimal n (c ∷ ds) = (c ≢ b'0') × All IsDigit (c ∷ ds) × (value 0 (c ∷ ds) ≡ n)

-- The decimal text of a number, zero included.
abbrev pub IsNumeral : ℕ → List ℕ → Type 0
IsNumeral n ds = ((n ≡ 0) × (ds ≡ b'0' ∷ [])) ⊎ IsDecimal n ds

value-snoc : (n : ℕ) (ds : List ℕ) (c : ℕ) → value n (ds ++ c ∷ []) ≡ value n ds * 10 + (c - b'0')
value-snoc n ds c = foldl-append (λ n c. n * 10 + (c - b'0')) n ds (c ∷ [])

pub positive : (n : ℕ) (ds : List ℕ) → IsDecimal n ds → 0 < n
positive n [] h = elim h [ ]
positive n (c ∷ ds) (nonzero, (digit, digits), spells) =
    ground (arith, le-value (0 * 10 + (c - b'0')) ds)

IsDecimal-snoc :
    (q e : ℕ) (ds : List ℕ)
    → e < 10
    → IsDecimal q ds
    → IsDecimal (q * 10 + e) (ds ++ (b'0' + e) ∷ [])
IsDecimal-snoc q e [] small h = elim h [ ]
IsDecimal-snoc q e (c ∷ ds) small (nonzero, digits, spells) = (
  nonzero,
  All-append IsDigit (c ∷ ds) ((b'0' + e) ∷ []) digits ((omega arith, omega arith), tt),
  omega (arith, value-snoc 0 (c ∷ ds) (b'0' + e), spells),
)

IsDecimal-one : (e : ℕ) → 0 < e → e < 10 → IsDecimal e ((b'0' + e) ∷ [])
IsDecimal-one e large small =
    ((λ zero_digit. omega (arith, zero_digit)), ((omega arith, omega arith), tt), omega arith)

not_zero : (n : ℕ) → 0 < n → (n == 0) ≡ false
not_zero n large = ground arith

last_alone : (q e : ℕ) → q ≡ 0 → e < 10 → 0 < q + e → IsDecimal (q * 10 + e) ((b'0' + e) ∷ [])
last_alone q e none small large = rw (none, zero_add e) (IsDecimal-one e (omega arith) small)

-- The digits behind the last, and any last digit, the number not being zero.
pub IsDecimal-last :
    (fuel q e : ℕ)
    → q < limit fuel
    → e < 10
    → 0 < q + e
    → IsDecimal (q * 10 + e) (reverse ((b'0' + e) ∷ lows fuel q))
unfolding lows
IsDecimal-last zero q e fits small large = last_alone q e (omega arith) small large
IsDecimal-last (suc fuel) q e fits small large = elim (Bool-cases (q == 0)) [
  | inl none ↦ rw none (last_alone q e (ground arith) small large)
  | inr some ↦
      rw (some, reverse-cons (b'0' + e) ((b'0' + q % 10) ∷ lows fuel (q / 10)))
        (IsDecimal-snoc q e (reverse ((b'0' + q % 10) ∷ lows fuel (q / 10))) small (
          subst (λ n. IsDecimal n (reverse ((b'0' + q % 10) ∷ lows fuel (q / 10)))) (split_ten q)
            (IsDecimal-last fuel (q / 10) (q % 10) (omega arith) (omega arith) (ground arith))))
]

pub IsDecimal-lows :
    (fuel n : ℕ) → n < limit fuel * 10 → 0 < n → IsDecimal n (reverse (lows (suc fuel) n))
unfolding lows
IsDecimal-lows fuel n fits large = rw (not_zero n large) (
    subst (λ m. IsDecimal m (reverse ((b'0' + n % 10) ∷ lows fuel (n / 10)))) (split_ten n)
      (IsDecimal-last fuel (n / 10) (n % 10) (omega arith) (omega arith) (omega arith)))

-- A text ends somewhere.
pub snoc {ℓ} :
    {A : Type ℓ} (x : A) (xs : List A) → (ys : List A) × (y : A) × (x ∷ xs ≡ ys ++ y ∷ [])
snoc x [] = ([], x, refl)
snoc x (x' ∷ xs) = let (ys, y, e) = snoc x' xs in (x ∷ ys, y, ap (λ zs. x ∷ zs) e)

lows-zero : (fuel n : ℕ) → n ≡ 0 → lows fuel n ≡ []
unfolding lows
lows-zero zero n none = refl
lows-zero (suc fuel) n none = rw none refl

-- The text without its last digit.
IsDecimal-init :
    (n : ℕ) (ys : List ℕ) (y : ℕ)
    → IsDecimal n (ys ++ y ∷ [])
    → (y ≡ b'0' + n % 10) × (((ys ≡ []) × (n / 10 ≡ 0)) ⊎ IsDecimal (n / 10) ys)
IsDecimal-init n [] y (nonzero, (digit, _), spells) = (omega arith, inl (refl, omega arith))
IsDecimal-init n (c ∷ ys) y (nonzero, digits, spells) =
    let (front, (digit, _)) = All-split IsDigit (c ∷ ys) (y ∷ []) digits in
    (
      omega (arith, value-snoc 0 (c ∷ ys) y, digit),
      inr (nonzero, front, omega (arith, value-snoc 0 (c ∷ ys) y, digit)),
    )

lows-step :
    (fuel n : ℕ)
    → 0 < n
    → reverse (lows (suc fuel) n) ≡ reverse (lows fuel (n / 10)) ++ (b'0' + n % 10) ∷ []
unfolding lows
lows-step fuel n large = rw (not_zero n large) (reverse-cons (b'0' + n % 10) (lows fuel (n / 10)))

-- There is one decimal text of a number.
pub IsDecimal-unique :
    (fuel n : ℕ) (ds : List ℕ) → n < limit fuel → IsDecimal n ds → ds ≡ reverse (lows fuel n)
unfolding lows
IsDecimal-unique fuel n [] fits h = elim h [ ]
IsDecimal-unique zero n (c ∷ ds) fits h = absurd (omega (arith, positive n (c ∷ ds) h))
IsDecimal-unique (suc fuel) n (c ∷ ds) fits h =
    let (ys, y, ends) = snoc c ds in
    let (last_digit, front) = IsDecimal-init n ys y (subst (IsDecimal n) ends h) in
    ends
    ∙ ap (λ d. ys ++ d ∷ []) last_digit
    ∙ ap (λ zs. zs ++ (b'0' + n % 10) ∷ [])
        (elim front [
          | inl (nothing, none) ↦ rw (nothing, lows-zero fuel (n / 10) none) refl
          | inr decimal ↦ IsDecimal-unique fuel (n / 10) ys (omega arith) decimal
        ])
    ∙ sym (lows-step fuel n (positive n (c ∷ ds) h))

pub lows-suc : (fuel n : ℕ) → 0 < n → lows (suc fuel) n ≡ (b'0' + n % 10) ∷ lows fuel (n / 10)
unfolding lows
lows-suc fuel n large = rw (not_zero n large) refl

pub length-lows : (fuel n : ℕ) → length (lows fuel n) ≤ fuel
unfolding lows
length-lows zero n = omega arith
length-lows (suc fuel) n = elim (Bool-cases (n == 0)) [
  | inl none ↦ rw none (omega arith)
  | inr some ↦ rw some (omega (arith, length-lows fuel (n / 10)))
]
