-- ===== src/Containers/Vector/Construct.antt =====
-- The functions of src/rbc/containers/vector.h that make vectors.
use mathlib.Core.List.{append_assoc}
use mathlib.Core.Path.{subst}
use rubidium_c.Prelude.{
  not_zero, ℕ, zero, suc, ◌+◌, ◌-◌, ◌≤◌, ◌<◌, ◌≡◌, refl, sym, ap, ◌∙◌, inl, inr, Option, some, none,
  List, [], ◌∷◌, ◌++◌, length, replicate, get_elem?, take, drop, length-append, length-replicate,
  get_elem?-append_length, set-append_length, length-take, length-drop, get_elem?-replicate,
  get_elem?-drop, get_elem?-take, arith, lt→ltb, not_ltb,
}
use rubidium_c.Containers.Vector.{
  Vector, vector_new, element, write_loop, with_size, written, with_size_and_value, from, from_list,
  copy,
}
use rubidium_c.Containers.Vector.Contents.{
  contents, IsValid, Represents, IsCalloc, Granted, element-contents,
}

module _ {ℓ} {A : Type ℓ} where
  -- The loop replaces what is left of the block by what the source yields.
  write_loop-eq :
      (source : ℕ → Option A) (done ys old : List A)
      → length old ≡ length ys
      → ((i : ℕ) → i < length (done ++ ys) → source i ≡ get_elem? (done ++ ys) i)
      → write_loop source (length ys) (length done) (some (done ++ old)) ≡ some (some (done ++ ys))
  unfolding write_loop
  write_loop-eq source done [] [] same agrees = refl
  write_loop-eq source done [] (o ∷ old) same agrees = absurd (omega (arith, same))
  write_loop-eq source done (y ∷ ys) [] same agrees = absurd (omega (arith, same))
  write_loop-eq source done (y ∷ ys) (o ∷ old) same agrees =
      rw
        (
          agrees (length done) (omega (arith, length-append done (y ∷ ys))),
          get_elem?-append_length done y ys,
          lt→ltb (length done) (length (done ++ o ∷ old))
              (omega (arith, length-append done (o ∷ old))),
          set-append_length done o old y,
          sym (append_assoc done (y ∷ []) old),
          sym (length-append done (y ∷ [])),
        )
        (write_loop-eq source (done ++ y ∷ []) ys old (omega (arith, same))
            (subst (λ zs. (i : ℕ) → i < length zs → source i ≡ get_elem? zs i) (sym assoc) agrees)
          ∙ ap (λ zs. some (some zs)) assoc)
    where
      assoc : (done ++ y ∷ []) ++ ys ≡ done ++ y ∷ ys
      assoc = append_assoc done (y ∷ []) ys

  module _ (calloc : ℕ → Option (List A)) (zero_element : A) (lawful : IsCalloc calloc zero_element)
      (granted : (n : ℕ) → Granted calloc n) where
    -- A source that agrees with a list fills the vector with the list.
    written_filled :
        (source : ℕ → Option A) (y : A) (ys block : List A)
        → calloc (length (y ∷ ys)) ≡ some block
        → ((i : ℕ) → i < length (y ∷ ys) → source i ≡ get_elem? (y ∷ ys) i)
        → written calloc (length (y ∷ ys)) source
          ≡ some
              (record { elements = some (y ∷ ys); size = length (y ∷ ys); cap = length (y ∷ ys) })
    unfolding written with_size
    written_filled source y ys block allocated agrees =
        rw
          (
            not_zero (length (y ∷ ys)) (omega arith),
            allocated,
            write_loop-eq source [] (y ∷ ys) block whole agrees,
          )
          refl
      where
        whole : length block ≡ length (y ∷ ys)
        whole =
            ap length (lawful (length (y ∷ ys)) block allocated)
            ∙ length-replicate (length (y ∷ ys)) zero_element

    written_lem :
        (source : ℕ → Option A) (ys : List A)
        → ((i : ℕ) → i < length ys → source i ≡ get_elem? ys i)
        → Represents (written calloc (length ys) source) ys
    unfolding written with_size write_loop vector_new
    written_lem source [] agrees = record {
      vector = vector_new;
      built = refl;
      valid = record { sized = refl; within = omega arith };
      holds = refl;
    }
    written_lem source (y ∷ ys) agrees = elim (granted (length (y ∷ ys))) [
      | inl nothing ↦ absurd (omega (arith, nothing))
      | inr (block, allocated) ↦ record {
        vector = record { elements = some (y ∷ ys); size = length (y ∷ ys); cap = length (y ∷ ys) };
        built = written_filled source y ys block allocated agrees;
        valid = record { sized = refl; within = omega arith };
        holds = refl;
      }
    ]

    -- The same at a length that is equal to the list's.
    written_at :
        (source : ℕ → Option A) (ys : List A) (n : ℕ)
        → length ys ≡ n
        → ((i : ℕ) → i < n → source i ≡ get_elem? ys i)
        → Represents (written calloc n source) ys
    written_at source ys n same agrees =
        subst (λ m. Represents (written calloc m source) ys) same
          (written_lem source ys (λ i below. agrees i (omega (arith, same))))

    with_size-Represents :
        (n : ℕ) → Represents (some (with_size calloc n)) (replicate n zero_element)
    unfolding with_size
    with_size-Represents zero = record {
      vector = record { elements = none; size = 0; cap = 0 };
      built = refl;
      valid = record { sized = refl; within = omega arith };
      holds = refl;
    }
    with_size-Represents (suc n) = elim (granted (suc n)) [
      | inl nothing ↦ absurd (omega (arith, nothing))
      | inr (block, allocated) ↦ record {
        vector = record { elements = some block; size = suc n; cap = suc n };
        built = rw (not_zero (suc n) (omega arith), allocated) refl;
        valid = record {
          sized =
              sym (
                ap length (lawful (suc n) block allocated) ∙ length-replicate (suc n) zero_element);
          within = omega arith;
        };
        holds = lawful (suc n) block allocated;
      }
    ]

    -- Each constructor makes a valid vector of the elements it is given.
    pub constructors_lem :
        (n : ℕ) (value : A) (array : List A) (begin end : ℕ) (rhs : Vector A)
        → begin ≤ end
        → end ≤ length array
        → IsValid rhs
        → Represents (some (with_size calloc n)) (replicate n zero_element)
          × Represents (with_size_and_value calloc n value) (replicate n value)
          × Represents (from calloc array begin end) (take (end - begin) (drop begin array))
          × Represents (from_list calloc (length array) array) array
          × Represents (copy calloc rhs) (contents rhs)
    unfolding with_size_and_value from from_list copy
    constructors_lem n value array begin end rhs ordered inside valid = (
      with_size-Represents n,
      written_at (λ _. some value) (replicate n value) n (length-replicate n value)
          (λ i below. sym (get_elem?-replicate n value i below)),
      rw (not_ltb end begin ordered) (
          written_at (λ idx. get_elem? array (begin + idx)) (take (end - begin) (drop begin array))
            (end - begin)
            (omega (arith, length-take (end - begin) (drop begin array), length-drop begin array))
            (λ i below. sym (
              get_elem?-take (end - begin) (drop begin array) i below
              ∙ get_elem?-drop begin array i))),
      written_lem (get_elem? array) array (λ i _. refl),
      written_at (element rhs.elements) (contents rhs) rhs.size (sym valid.sized)
          (λ i _. element-contents rhs i),
    )
