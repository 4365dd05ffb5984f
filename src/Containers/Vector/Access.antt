-- ===== src/Containers/Vector/Access.antt =====
-- The functions of src/rbc/containers/vector.h that read one element, and those that give up, move
-- or exchange the block.
use rubidium_c.Prelude.{
  ℕ, zero, suc, ◌+◌, ◌-◌, ◌%◌, ◌^◌, ◌<◌, ◌≤◌, ◌≡◌, refl, sym, ap, ◌∙◌, ltb, if◌then◌else◌, Option,
  some, none, List, [], ◌∷◌, length, get_elem?, inl, inr, get_elem?_within, le_or_lt, lt→ltb,
  not_ltb, arith,
}
use rubidium_c.Containers.Vector.{
  Vector, Outcome, last_index, move, delete, clear, at, at_ref, front, front_ref, back, back_ref,
  swap,
}
use rubidium_c.Containers.Vector.Contents.{contents, IsValid, element-contents}

module _ {ℓ} {A : Type ℓ} where
  -- What an access by index should give: the element, or a failed assertion.
  abbrev pub found_or_failed : Option A → Outcome A
  found_or_failed none = Outcome.assertion_failed
  found_or_failed (some x) = Outcome.returned x

  abbrev pub checked : List A → ℕ → Outcome A
  checked xs i = found_or_failed (get_elem? xs i)

  abbrev pub checked_index : List A → ℕ → Outcome ℕ
  checked_index xs i = if ltb i (length xs) then Outcome.returned i else Outcome.assertion_failed

  get_elem?_beyond : (xs : List A) (i : ℕ) → length xs ≤ i → get_elem? xs i ≡ none
  get_elem?_beyond [] i h = refl
  get_elem?_beyond (x ∷ xs) zero h = absurd (omega arith)
  get_elem?_beyond (x ∷ xs) (suc i) h = get_elem?_beyond xs i (omega arith)

  at_lem : (v : Vector A) (i : ℕ) → IsValid v → at v i ≡ some (checked (contents v) i)
  unfolding at
  at_lem v i valid = elim (le_or_lt v.size i) [
    | inl beyond ↦ rw (not_ltb i v.size beyond) (
        ap (λ o. some (found_or_failed o))
          (sym (get_elem?_beyond (contents v) i (omega (arith, valid.sized)))))
    | inr below ↦
        let (x, found) = get_elem?_within (contents v) i (omega (arith, valid.sized)) in
        rw (lt→ltb i v.size below, element-contents v i, found) refl
  ]

  at_ref_lem : (v : Vector A) (i : ℕ) → IsValid v → at_ref v i ≡ some (checked_index (contents v) i)
  unfolding at_ref
  at_ref_lem v i valid = elim (le_or_lt v.size i) [
    | inl beyond ↦
        rw (not_ltb i v.size beyond, not_ltb i (length (contents v)) (omega (arith, valid.sized)))
          refl
    | inr below ↦
        let (x, found) = get_elem?_within (contents v) i (omega (arith, valid.sized)) in
        rw
          (
            lt→ltb i v.size below,
            element-contents v i,
            found,
            lt→ltb i (length (contents v)) (omega (arith, valid.sized)),
          )
          refl
  ]

  -- The last element, or a failed assertion where there is none.
  abbrev pub last : List A → Outcome A
  last [] = Outcome.assertion_failed
  last (x ∷ []) = Outcome.returned x
  last (x ∷ y ∷ ys) = last (y ∷ ys)

  last-checked : (x : A) (xs : List A) → checked (x ∷ xs) (length xs) ≡ last (x ∷ xs)
  last-checked x [] = refl
  last-checked x (y ∷ ys) = last-checked y ys

  last_of :
      (xs : List A)
      → length xs < 2 ^ 64
      → checked xs ((length xs + (2 ^ 64 - 1)) % 2 ^ 64) ≡ last xs
  last_of [] h = refl
  last_of (x ∷ xs) h = ap (checked (x ∷ xs)) (omega (arith, h)) ∙ last-checked x xs

  back_lem : (v : Vector A) → IsValid v → v.size < 2 ^ 64 → back v ≡ some (last (contents v))
  unfolding back
  back_lem v valid small =
      at_lem v (last_index v) valid
      ∙ ap (λ n. some (checked (contents v) ((n + (2 ^ 64 - 1)) % 2 ^ 64))) valid.sized
      ∙ ap some (last_of (contents v) (omega (arith, small, valid.sized)))

  -- Every access to a valid vector of less than 2^64 elements gives the element of the list there, or
  -- its index for the functions of references, and a failed assertion where the list has none: none
  -- accesses memory that the vector does not own.
  pub access_lem :
      (v : Vector A) (i : ℕ)
      → IsValid v
      → v.size < 2 ^ 64
      → (at v i ≡ some (checked (contents v) i))
        × (at_ref v i ≡ some (checked_index (contents v) i))
        × (front v ≡ some (checked (contents v) 0))
        × (front_ref v ≡ some (checked_index (contents v) 0))
        × (back v ≡ some (last (contents v)))
        × (back_ref v ≡ some (checked_index (contents v) (last_index v)))
  unfolding front front_ref back_ref
  access_lem v i valid small = (
    at_lem v i valid,
    at_ref_lem v i valid,
    at_lem v 0 valid,
    at_ref_lem v 0 valid,
    back_lem v valid small,
    at_ref_lem v (last_index v) valid,
  )

  emptied-IsValid : (n : ℕ) → IsValid {A = A} (record { elements = none; size = 0; cap = n })
  emptied-IsValid n = record { sized = refl; within = omega arith }

  -- After any of the functions that give up, move or exchange blocks, the vectors are valid; `move` and
  -- `swap` pass the elements on, `delete` and `clear` free the block once and leave no element.
  pub give_up_lem :
      (v w : Vector A)
      → IsValid v
      → IsValid w
      → (((move v).0 ≡ v) × IsValid ((move v).1) × (contents ((move v).1) ≡ []))
        × (((swap v w).0 ≡ w) × ((swap v w).1 ≡ v))
        × (IsValid ((delete v).0) × (contents ((delete v).0) ≡ []) × ((delete v).1 ≡ v.elements))
        × (IsValid ((clear v).0) × (contents ((clear v).0) ≡ []) × ((clear v).1 ≡ v.elements))
  unfolding move swap delete clear
  give_up_lem v w valid_v valid_w = (
    (refl, emptied-IsValid 0, refl),
    (refl, refl),
    (emptied-IsValid v.cap, refl, refl),
    (emptied-IsValid v.cap, refl, refl),
  )
