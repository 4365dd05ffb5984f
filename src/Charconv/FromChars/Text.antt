-- ===== src/Charconv/FromChars/Text.antt =====
-- The texts that `rbc_from_chars` of src/rbc/utils/charconv.h accepts: blanks, a sign, digits.
use mathlib.Core.List.{foldl}
use rubidium_c.Prelude.{
  ℕ, suc, ◌+◌, ◌-◌, ◌*◌, ◌%◌, ◌≤◌, ◌<◌, ◌≡◌, ◌≢◌, refl, Bool, true, false, if◌then◌else◌, List, [],
  ◌∷◌, ◌++◌, length, All, arith, ◌&&◌, leb, Bool-cases, ◌∙◌, ◌⊎◌, inl, inr,
}
use rubidium_c.Prelude.Int.{ℤ, pos, sub_ℕ}
use rubidium_c.Charconv.FromChars.{skip_spaces}
use rubidium_c.Charconv.Types.{Ctype, IsCtype, SignedType, i8, i16, i32, i64, signed_max}

-- The number that digits spell behind `n`, with no bound.
abbrev pub value : ℕ → List ℕ → ℕ
value = foldl (λ n c. n * 10 + (c - b'0'))

abbrev pub IsDigit : ℕ → Type 0
IsDigit c = (b'0' ≤ c) × (c ≤ b'9')

-- The digits end here.
abbrev pub Stops : Ctype → List ℕ → Type 0
Stops ct [] = Unit
Stops ct (c ∷ rest) = ct.isdigit c ≡ false

pub data Sign : Type 0 where
  unsigned plus minus : Sign

abbrev pub sign_text : Sign → List ℕ
sign_text unsigned = []
sign_text plus = b'+' ∷ []
sign_text minus = b'-' ∷ []

-- No number follows, behind the blanks and this sign.
abbrev pub NoDigit : Ctype → Sign → List ℕ → Type 0
NoDigit ct plus rest = Stops ct rest
NoDigit ct minus rest = Stops ct rest
NoDigit ct unsigned [] = Unit
NoDigit ct unsigned (c ∷ rest) =
    (ct.isspace c ≡ false) × (ct.isdigit c ≡ false) × (c ≢ b'+') × (c ≢ b'-')

-- The unsigned conversions take no minus.
abbrev pub NoUnsigned : Ctype → Sign → List ℕ → Type 0
NoUnsigned ct minus rest = Unit
NoUnsigned ct unsigned rest = NoDigit ct unsigned rest
NoUnsigned ct plus rest = NoDigit ct plus rest

abbrev pub is_minus : Sign → Bool
is_minus unsigned = false
is_minus plus = false
is_minus minus = true

-- The integer of this size and sign, and the greatest size that the type holds on that side.
abbrev pub signed_value : Bool → ℕ → ℤ
signed_value is_negative n = if is_negative then sub_ℕ 0 n else pos n

abbrev pub magnitude_limit : SignedType → Bool → ℕ
magnitude_limit type is_negative = if is_negative then suc (signed_max type) else signed_max type

pub le-value : (n : ℕ) (ds : List ℕ) → n ≤ value n ds
le-value n [] = omega arith
le-value n (c ∷ ds) = omega (arith, le-value (n * 10 + (c - b'0')) ds)

-- No least value is a multiple of ten, so it is never reached before its last digit.
pub signed_max_mod : (type : SignedType) → signed_max type % 10 ≡ 7
signed_max_mod i8 = omega arith
signed_max_mod i16 = omega arith
signed_max_mod i32 = omega arith
signed_max_mod i64 = omega arith

pub digit-small : (c : ℕ) → IsDigit c → c - b'0' < 10
digit-small c digit = omega arith

pub not_below : (first last : ℕ) → first < last → leb last first ≡ false
not_below first last nonempty = ground arith

pub zero_add : (n : ℕ) → 0 + n ≡ n
zero_add n = omega arith

pub add_zero : (n : ℕ) → n + 0 ≡ n
add_zero n = omega arith

pub add_suc : (n k : ℕ) → n + suc k ≡ n + 1 + k
add_suc n k = omega arith

pub digit-leb : (c : ℕ) → IsDigit c → (leb b'0' c && leb c b'9') ≡ true
digit-leb c digit = ground arith

pub not_blank-digit : (ct : Ctype) (lawful : IsCtype ct) (c : ℕ) → IsDigit c → ct.isspace c ≡ false
not_blank-digit ct lawful c digit = elim (Bool-cases (ct.isspace c)) [
  | inl blank ↦ cc (lawful.digits c, digit-leb c digit, (lawful.blanks c blank).0)
  | inr other ↦ other
]

pub not_blank-sign :
    (ct : Ctype) (lawful : IsCtype ct) (c : ℕ) → (c ≡ b'+') ⊎ (c ≡ b'-') → ct.isspace c ≡ false
not_blank-sign ct lawful c sign = elim (Bool-cases (ct.isspace c)) [
  | inl blank ↦ ground (arith, lawful.blanks c blank)
  | inr other ↦ other
]

-- The loop over the blanks stops at the first character that is none.
pub skip_spaces-append :
    (ct : Ctype) (blanks : List ℕ) (c : ℕ) (rest : List ℕ) (ptr : ℕ)
    → All (λ b. ct.isspace b ≡ true) blanks
    → ct.isspace c ≡ false
    → skip_spaces ct (blanks ++ c ∷ rest) ptr ≡ (c ∷ rest, ptr + length blanks)
unfolding skip_spaces
skip_spaces-append ct [] c rest ptr _ other = rw (other, add_zero ptr) refl
skip_spaces-append ct (b ∷ blanks) c rest ptr (blank, all) other = rw blank (
    skip_spaces-append ct blanks c rest (ptr + 1) all other ∙ rw (add_suc ptr (length blanks)) refl)

pub skip_spaces-end :
    (ct : Ctype) (blanks : List ℕ) (ptr : ℕ)
    → All (λ b. ct.isspace b ≡ true) blanks
    → skip_spaces ct (blanks ++ []) ptr ≡ ([], ptr + length blanks)
unfolding skip_spaces
skip_spaces-end ct [] ptr _ = rw (add_zero ptr) refl
skip_spaces-end ct (b ∷ blanks) ptr (blank, all) =
    rw blank (skip_spaces-end ct blanks (ptr + 1) all ∙ rw (add_suc ptr (length blanks)) refl)
