-- ===== src/Containers/Vector/Compare.antt =====
-- The comparisons of src/rbc/containers/vector.h.
use mathlib.Core.Path.{subst}
use rubidium_c.Prelude.{
  equal_of, and_false, ℕ, suc, ◌+◌, ◌≡◌, ◌≢◌, ◌<◌, inl, inr, Bool-cases, refl, sym, ap, ◌∙◌, Bool,
  true, false, not, ◌&&◌, ◌==◌, if◌then◌else◌, Option, some, List, [], ◌∷◌, length, get_elem?,
  arith,
}
use rubidium_c.Containers.Vector.{
  Vector, element, negated, eq_loop, eq_by, lt_loop, lt_by, eq, ne, lt, gt, le, ge,
}
use rubidium_c.Containers.Vector.Contents.{contents, IsValid, element-contents}

apart : (a b : ℕ) → a < b → (a == b) ≡ false
apart a b h = ground arith

met : (a b : ℕ) → a ≡ b → (a == b) ≡ true
met a b h = ground arith

unequal_of : (a b : ℕ) → (a == b) ≡ false → a ≢ b
unequal_of a b h = ground arith

if-some : (b c : Bool) → (if b then some false else some c) ≡ some (not b && c)
if-some true c = refl
if-some false c = refl

if_if-some :
    (a b c : Bool)
    → (if a then some true else if b then some false else some c)
      ≡ some (if a then true else if b then false else c)
if_if-some true b c = refl
if_if-some false true c = refl
if_if-some false false c = refl

module _ {ℓ} {A : Type ℓ} where
  -- Two lists without a difference, element by element.
  abbrev pub same_lists : (A → A → Bool) → List A → List A → Bool
  same_lists differ [] [] = true
  same_lists differ [] (y ∷ ys) = false
  same_lists differ (x ∷ xs) [] = false
  same_lists differ (x ∷ xs) (y ∷ ys) = not (differ x y) && same_lists differ xs ys

  -- The lexicographic order.
  abbrev pub lex : (A → A → Bool) → List A → List A → Bool
  lex less xs [] = false
  lex less [] (y ∷ ys) = true
  lex less (x ∷ xs) (y ∷ ys) = if less x y then true else if less y x then false else lex less xs ys

  -- From an index on, a block has the elements of a list.
  ReadsFrom : Option (List A) → ℕ → List A → Type ℓ
  ReadsFrom block idx xs = (i : ℕ) → element block (idx + i) ≡ get_elem? xs i

  ReadsFrom-head :
      (block : Option (List A)) (idx : ℕ) (x : A) (xs : List A)
      → ReadsFrom block idx (x ∷ xs)
      → element block idx ≡ some x
  unfolding ReadsFrom
  ReadsFrom-head block idx x xs reads = ap (element block) (omega arith) ∙ reads 0

  ReadsFrom-tail :
      (block : Option (List A)) (idx : ℕ) (x : A) (xs : List A)
      → ReadsFrom block idx (x ∷ xs)
      → ReadsFrom block (idx + 1) xs
  unfolding ReadsFrom
  ReadsFrom-tail block idx x xs reads i = ap (element block) (omega arith) ∙ reads (suc i)

  ReadsFrom-start : (v : Vector A) → ReadsFrom v.elements 0 (contents v)
  unfolding ReadsFrom
  ReadsFrom-start v i = ap (element v.elements) (omega arith) ∙ element-contents v i

  eq_loop-same_lists :
      (differ : A → A → Bool) (idx : ℕ) (xs ys : List A) (lhs rhs : Option (List A))
      → length xs ≡ length ys
      → ReadsFrom lhs idx xs
      → ReadsFrom rhs idx ys
      → eq_loop differ (length xs) idx lhs rhs ≡ some (same_lists differ xs ys)
  unfolding eq_loop
  eq_loop-same_lists differ idx [] [] lhs rhs same l r = refl
  eq_loop-same_lists differ idx [] (y ∷ ys) lhs rhs same l r = absurd (omega (arith, same))
  eq_loop-same_lists differ idx (x ∷ xs) [] lhs rhs same l r = absurd (omega (arith, same))
  eq_loop-same_lists differ idx (x ∷ xs) (y ∷ ys) lhs rhs same l r =
      rw
        (
          ReadsFrom-head lhs idx x xs l,
          ReadsFrom-head rhs idx y ys r,
          eq_loop-same_lists differ (idx + 1) xs ys lhs rhs (omega (arith, same))
              (ReadsFrom-tail lhs idx x xs l) (ReadsFrom-tail rhs idx y ys r),
        )
        (if-some (differ x y) (same_lists differ xs ys))

  same_lists-length :
      (differ : A → A → Bool) (xs ys : List A)
      → length xs ≢ length ys
      → same_lists differ xs ys ≡ false
  same_lists-length differ [] [] h = absurd (h refl)
  same_lists-length differ [] (y ∷ ys) h = refl
  same_lists-length differ (x ∷ xs) [] h = refl
  same_lists-length differ (x ∷ xs) (y ∷ ys) h =
      rw (same_lists-length differ xs ys (λ e. h (ap suc e))) (and_false (not (differ x y)))

  pub eq_by-same_lists :
      (differ : A → A → Bool) (v w : Vector A)
      → IsValid v
      → IsValid w
      → eq_by differ v w ≡ some (same_lists differ (contents v) (contents w))
  unfolding eq_by
  eq_by-same_lists differ v w valid_v valid_w = elim (Bool-cases (v.size == w.size)) [
    | inl same ↦ rw (same) (
        subst
          (λ n.
            eq_loop differ n 0 v.elements w.elements
            ≡ some (same_lists differ (contents v) (contents w)))
          (sym valid_v.sized)
          (eq_loop-same_lists differ 0 (contents v) (contents w) v.elements w.elements
            (sym valid_v.sized ∙ equal_of v.size w.size same ∙ valid_w.sized) (ReadsFrom-start v)
            (ReadsFrom-start w)))
    | inr unequal ↦ rw (unequal) (
        ap some (
          sym (
            same_lists-length differ (contents v) (contents w)
              (λ e. unequal_of v.size w.size unequal (valid_v.sized ∙ e ∙ sym valid_w.sized)))))
  ]

  lt_loop-lex :
      (less : A → A → Bool) (idx : ℕ) (xs ys : List A) (v w : Vector A)
      → idx + length xs ≡ v.size
      → idx + length ys ≡ w.size
      → ReadsFrom v.elements idx xs
      → ReadsFrom w.elements idx ys
      → lt_loop less (length xs) idx v w ≡ some (lex less xs ys)
  unfolding lt_loop
  lt_loop-lex less idx [] [] v w ends_v ends_w l r =
      rw (met idx v.size (omega (arith, ends_v)), met idx w.size (omega (arith, ends_w))) refl
  lt_loop-lex less idx [] (y ∷ ys) v w ends_v ends_w l r =
      rw (met idx v.size (omega (arith, ends_v)), apart idx w.size (omega (arith, ends_w))) refl
  lt_loop-lex less idx (x ∷ xs) [] v w ends_v ends_w l r =
      rw (apart idx v.size (omega (arith, ends_v)), met idx w.size (omega (arith, ends_w))) refl
  lt_loop-lex less idx (x ∷ xs) (y ∷ ys) v w ends_v ends_w l r =
      rw
        (
          apart idx v.size (omega (arith, ends_v)),
          apart idx w.size (omega (arith, ends_w)),
          ReadsFrom-head v.elements idx x xs l,
          ReadsFrom-head w.elements idx y ys r,
          lt_loop-lex less (idx + 1) xs ys v w (omega (arith, ends_v)) (omega (arith, ends_w))
              (ReadsFrom-tail v.elements idx x xs l) (ReadsFrom-tail w.elements idx y ys r),
        )
        (if_if-some (less x y) (less y x) (lex less xs ys))

  pub lt_by-lex :
      (less : A → A → Bool) (v w : Vector A)
      → IsValid v
      → IsValid w
      → lt_by less v w ≡ some (lex less (contents v) (contents w))
  unfolding lt_by
  lt_by-lex less v w valid_v valid_w =
      subst (λ n. lt_loop less n 0 v w ≡ some (lex less (contents v) (contents w)))
        (sym valid_v.sized)
        (lt_loop-lex less 0 (contents v) (contents w) v w (omega (arith, valid_v.sized))
          (omega (arith, valid_w.sized)) (ReadsFrom-start v) (ReadsFrom-start w))

  -- On valid vectors the comparisons with the operators of the type never leave a block, and are those
  -- of the lists: `eq` and `ne` find whether the lists have no difference, and `lt`, `gt`, `le` and
  -- `ge` follow the lexicographic order.
  pub compare_lem :
      (differ less : A → A → Bool) (v w : Vector A)
      → IsValid v
      → IsValid w
      → (eq differ less v w ≡ some (same_lists differ (contents v) (contents w)))
        × (ne differ less v w ≡ some (not (same_lists differ (contents v) (contents w))))
        × (lt differ less v w ≡ some (lex less (contents v) (contents w)))
        × (gt differ less v w ≡ some (lex less (contents w) (contents v)))
        × (le differ less v w ≡ some (not (lex less (contents w) (contents v))))
        × (ge differ less v w ≡ some (not (lex less (contents v) (contents w))))
  unfolding eq ne lt gt le ge
  compare_lem differ less v w valid_v valid_w = (
    eq_by-same_lists differ v w valid_v valid_w,
    ap negated (eq_by-same_lists differ v w valid_v valid_w),
    lt_by-lex less v w valid_v valid_w,
    lt_by-lex less w v valid_w valid_v,
    ap negated (lt_by-lex less w v valid_w valid_v),
    ap negated (lt_by-lex less v w valid_v valid_w),
  )
