-- ===== src/Containers/Vector/Trichotomy.antt =====
-- How the comparisons of src/rbc/containers/vector.h that take a function agree with each other.
use mathlib.Core.Bool.{true≢false}
use rubidium_c.Prelude.{
  ◌≡◌, refl, ap, Bool, true, false, not, ◌&&◌, ◌||◌, if◌then◌else◌, Option, some, List, [], ◌∷◌,
  ◌>>=◌, arith,
}
use rubidium_c.Prelude.Int.{ℤ, pos, negsuc, ltb_ℤ, ◌==ℤ◌}
use rubidium_c.Containers.Vector.{Vector, eq_cmp, ne_cmp, lt_cmp, gt_cmp, le_cmp, ge_cmp}
use rubidium_c.Containers.Vector.Contents.{contents, IsValid}
use rubidium_c.Containers.Vector.Compare.{same_lists, lex, eq_by-same_lists, lt_by-lex}

differ_split : (c : ℤ) → not (c ==ℤ pos 0) ≡ (ltb_ℤ c (pos 0) || ltb_ℤ (pos 0) c)
differ_split (pos n) = ground arith
differ_split (negsuc n) = ground arith

one_sign : (c : ℤ) → (ltb_ℤ c (pos 0) && ltb_ℤ (pos 0) c) ≡ false
one_sign (pos n) = ground arith
one_sign (negsuc n) = ground arith

-- One step of the comparison of two lists: the heads are below (`a`), above (`b`) or neither.
step :
    (a b r s e : Bool)
    → (a && b) ≡ false
    → not s ≡ (r || e)
    → not r ≡ (s || e)
    → not e ≡ (r || s)
    → (not (if b then true else if a then false else s)
        ≡ ((if a then true else if b then false else r) || (not (a || b) && e)))
      × (not (if a then true else if b then false else r)
          ≡ ((if b then true else if a then false else s) || (not (a || b) && e)))
      × (not (not (a || b) && e) ≡ (
          (if a then true else if b then false else r)
          || (if b then true else if a then false else s)))
step true true r s e asym below above unequal = absurd (true≢false asym)
step true false r s e asym below above unequal = (refl, refl, refl)
step false true r s e asym below above unequal = (refl, refl, refl)
step false false r s e asym below above unequal = (below, above, unequal)

abbrev pub either : Option Bool → Option Bool → Option Bool
either l r = l >>= λ b. r >>= λ c. some (b || c)

module _ {ℓ} {A : Type ℓ} where
  -- Lists of which one is below the other or both are the same.
  Trichotomy : (A → A → Bool) → (A → A → Bool) → List A → List A → Type 0
  Trichotomy differ less xs ys =
      (not (lex less ys xs) ≡ (lex less xs ys || same_lists differ xs ys))
      × (not (lex less xs ys) ≡ (lex less ys xs || same_lists differ xs ys))
      × (not (same_lists differ xs ys) ≡ (lex less xs ys || lex less ys xs))

  lex-Trichotomy :
      (differ less : A → A → Bool) (xs ys : List A)
      → ((x y : A) → differ x y ≡ (less x y || less y x))
      → ((x y : A) → (less x y && less y x) ≡ false)
      → Trichotomy differ less xs ys
  unfolding Trichotomy
  lex-Trichotomy differ less [] [] splits asym = (refl, refl, refl)
  lex-Trichotomy differ less [] (y ∷ ys) splits asym = (refl, refl, refl)
  lex-Trichotomy differ less (x ∷ xs) [] splits asym = (refl, refl, refl)
  lex-Trichotomy differ less (x ∷ xs) (y ∷ ys) splits asym =
      let (below, above, unequal) = lex-Trichotomy differ less xs ys splits asym in
      rw (splits x y) (
        step (less x y) (less y x) (lex less xs ys) (lex less ys xs) (same_lists differ xs ys)
          (asym x y) below above unequal)

  -- A comparison whose sign turns with the order of its arguments.
  abbrev pub IsAntisymmetric : (A → A → ℤ) → Type ℓ
  IsAntisymmetric cmp = (x y : A) → ltb_ℤ (cmp y x) (pos 0) ≡ ltb_ℤ (pos 0) (cmp x y)

  abbrev unequal_by : (A → A → ℤ) → A → A → Bool
  unequal_by cmp x y = not (cmp x y ==ℤ pos 0)

  abbrev less_by : (A → A → ℤ) → A → A → Bool
  less_by cmp x y = ltb_ℤ (cmp x y) (pos 0)

  -- With such a comparison on valid vectors, `le_cmp` holds where `lt_cmp` or `eq_cmp` does, `ge_cmp`
  -- where `gt_cmp` or `eq_cmp` does, and `ne_cmp` where `lt_cmp` or `gt_cmp` does.
  pub compare_cmp_lem :
      (cmp : A → A → ℤ) (v w : Vector A)
      → IsAntisymmetric cmp
      → IsValid v
      → IsValid w
      → (le_cmp cmp v w ≡ either (lt_cmp cmp v w) (eq_cmp cmp v w))
        × (ge_cmp cmp v w ≡ either (gt_cmp cmp v w) (eq_cmp cmp v w))
        × (ne_cmp cmp v w ≡ either (lt_cmp cmp v w) (gt_cmp cmp v w))
  unfolding le_cmp ge_cmp ne_cmp lt_cmp gt_cmp eq_cmp Trichotomy
  compare_cmp_lem cmp v w anti valid_v valid_w =
      let (below, above, unequal) =
        lex-Trichotomy (unequal_by cmp) (less_by cmp) (contents v) (contents w)
          (λ x y. rw (anti x y) (differ_split (cmp x y)))
          (λ x y. rw (anti x y) (one_sign (cmp x y))) in
      rw
        (
          lt_by-lex (less_by cmp) v w valid_v valid_w,
          lt_by-lex (less_by cmp) w v valid_w valid_v,
          eq_by-same_lists (unequal_by cmp) v w valid_v valid_w,
        )
        (ap some below, ap some above, ap some unequal)
