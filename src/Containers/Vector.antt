-- ===== src/Containers/Vector.antt =====
-- The functions that `RBC_VECTOR_IMPL_GENERIC` and `RBC_VECTOR_IMPL_REL_OPS_GENERIC` of
-- src/rbc/containers/vector.h define, for any type of elements. `data` is `none` for a null pointer,
-- else the block that the vector owns. `calloc` is a parameter. A function returns `none` where it
-- accesses a null pointer or leaves a block.
pub mod Contents
pub mod Construct
pub mod Access
pub mod Compare
pub mod Trichotomy
use rubidium_c.Prelude.{
  ℕ, zero, suc, ◌+◌, ◌-◌, ◌%◌, ◌^◌, Bool, true, false, not, ◌&&◌, ltb, leb, ◌==◌, if◌then◌else◌,
  Option, none, some, List, [], ◌∷◌, get_elem?, set, length, ◌>>=◌, take, drop,
}
use rubidium_c.Prelude.Int.{ℤ, pos, ltb_ℤ, ◌==ℤ◌}

pub record Vector {ℓ} (A : Type ℓ) : Type ℓ where
  pub elements : Option (List A)
  pub size : ℕ
  pub cap : ℕ

-- What a function that asserts does: it returns, or `rbc_throw_assert_x` ends the process.
pub data Outcome {ℓ} (A : Type ℓ) : Type ℓ where
  returned : A → Outcome A
  assertion_failed : Outcome A

abbrev pub negated : Option Bool → Option Bool
negated result = result >>= λ b. some (not b)

module _ {ℓ} {A : Type ℓ} where
  pub vector_new : Vector A
  vector_new = record { elements = none; size = 0; cap = 0 }

  -- data[idx], and the store to it.
  abbrev pub element : Option (List A) → ℕ → Option A
  element block idx = block >>= λ xs. get_elem? xs idx

  abbrev pub set_element : Option (List A) → ℕ → A → Option (Option (List A))
  set_element block idx v =
      block >>= λ xs. if ltb idx (length xs) then some (some (set xs idx v)) else none

  -- for (usize idx = 0; idx < size; ++idx) self.data[idx] = source(idx);
  pub write_loop : (ℕ → Option A) → ℕ → ℕ → Option (List A) → Option (Option (List A))
  write_loop source zero idx block = some block
  write_loop source (suc rounds) idx block = source idx >>= λ v.
      set_element block idx v >>= λ next. write_loop source rounds (idx + 1) next

  module _ (calloc : ℕ → Option (List A)) where
    pub with_size : ℕ → Vector A
    with_size size = record {
      elements = if size == 0 then none else calloc size;
      size = size;
      cap = size;
    }

    -- A new vector, and the loop over it.
    pub written : ℕ → (ℕ → Option A) → Option (Vector A)
    written size source =
        let self = with_size size in
        write_loop source size 0 self.elements >>= λ block. some (record self { elements = block })

    pub with_size_and_value : ℕ → A → Option (Vector A)
    with_size_and_value size value = written size (λ _. some value)

    -- The pointers are indices of one array.
    pub from : List A → ℕ → ℕ → Option (Vector A)
    from array begin end =
        if ltb end begin
        then some vector_new
        else written (end - begin) (λ idx. get_elem? array (begin + idx))

    -- The arguments behind the size.
    pub from_list : ℕ → List A → Option (Vector A)
    from_list size args = written size (get_elem? args)

    pub copy : Vector A → Option (Vector A)
    copy rhs = written rhs.size (element rhs.elements)

  -- The vector returned, and `rhs` as it is left.
  pub move : Vector A → Vector A × Vector A
  move rhs = (rhs, record { elements = none; size = 0; cap = 0 })

  -- The vector as it is left, and the pointer that is freed. `clear` has the same body.
  pub delete : Vector A → Vector A × Option (List A)
  delete self = (record self { elements = none; size = 0 }, self.elements)

  pub clear : Vector A → Vector A × Option (List A)
  clear self = (record self { elements = none; size = 0 }, self.elements)

  unfoldable pub at : Vector A → ℕ → Option (Outcome A)
  at self position =
      if ltb position self.size
      then (element self.elements position >>= λ v. some (returned v))
      else some assertion_failed

  -- A reference is an index of the vector's block.
  pub at_ref : Vector A → ℕ → Option (Outcome ℕ)
  at_ref self position =
      if ltb position self.size
      then (element self.elements position >>= λ _. some (returned position))
      else some assertion_failed

  -- self->size - 1, of type usize
  abbrev pub last_index : Vector A → ℕ
  last_index self = (self.size + (2 ^ 64 - 1)) % 2 ^ 64

  pub front : Vector A → Option (Outcome A)
  front self = at self 0

  pub front_ref : Vector A → Option (Outcome ℕ)
  front_ref self = at_ref self 0

  unfoldable pub back : Vector A → Option (Outcome A)
  back self = at self (last_index self)

  pub back_ref : Vector A → Option (Outcome ℕ)
  back_ref self = at_ref self (last_index self)

  pub empty : Vector A → Bool
  empty self = self.size == 0

  -- Not implemented yet.
  pub push_back : Vector A → A → Outcome (Vector A)
  push_back self value = assertion_failed

  pub pop_back : Vector A → Outcome (Vector A)
  pop_back self = assertion_failed

  pub swap : Vector A → Vector A → Vector A × Vector A
  swap lhs rhs = (
    record { elements = rhs.elements; size = rhs.size; cap = rhs.cap },
    record { elements = lhs.elements; size = lhs.size; cap = lhs.cap },
  )

  -- The comparisons, over what they ask of two elements: whether these differ, and whether the first
  -- is less.
  pub eq_loop : (A → A → Bool) → ℕ → ℕ → Option (List A) → Option (List A) → Option Bool
  eq_loop differ zero idx lhs rhs = some true
  eq_loop differ (suc rounds) idx lhs rhs =
      let rest = eq_loop differ rounds (idx + 1) lhs rhs in
      element lhs idx >>= λ x. element rhs idx >>= λ y. if differ x y then some false else rest

  pub eq_by : (A → A → Bool) → Vector A → Vector A → Option Bool
  eq_by differ lhs rhs =
      if not (lhs.size == rhs.size)
      then some false
      else eq_loop differ lhs.size 0 lhs.elements rhs.elements

  -- return (lhs_first == lhs_last) && (rhs_first != rhs_last);
  abbrev pub lt_end : ℕ → Vector A → Vector A → Option Bool
  lt_end idx lhs rhs = some (idx == lhs.size && not (idx == rhs.size))

  -- Both pointers stand at the same index; the rounds left are `lhs_last - lhs_first`.
  unfoldable pub lt_loop : (A → A → Bool) → ℕ → ℕ → Vector A → Vector A → Option Bool
  lt_loop less zero idx lhs rhs = lt_end idx lhs rhs
  lt_loop less (suc rounds) idx lhs rhs =
      let rest = lt_loop less rounds (idx + 1) lhs rhs in
      if not (idx == lhs.size) && not (idx == rhs.size)
      then (element lhs.elements idx >>= λ x. element rhs.elements idx >>= λ y.
          if less x y then some true else if less y x then some false else rest)
      else lt_end idx lhs rhs

  unfoldable pub lt_by : (A → A → Bool) → Vector A → Vector A → Option Bool
  lt_by less lhs rhs = lt_loop less lhs.size 0 lhs rhs

  -- The functions with a comparison.
  module _ (cmp : A → A → ℤ) where
    pub eq_cmp : Vector A → Vector A → Option Bool
    eq_cmp = eq_by (λ x y. not (cmp x y ==ℤ pos 0))

    pub ne_cmp : Vector A → Vector A → Option Bool
    ne_cmp lhs rhs = negated (eq_cmp lhs rhs)

    pub lt_cmp : Vector A → Vector A → Option Bool
    lt_cmp = lt_by (λ x y. ltb_ℤ (cmp x y) (pos 0))

    pub gt_cmp : Vector A → Vector A → Option Bool
    gt_cmp lhs rhs = lt_cmp rhs lhs

    pub le_cmp : Vector A → Vector A → Option Bool
    le_cmp lhs rhs = negated (lt_cmp rhs lhs)

    pub ge_cmp : Vector A → Vector A → Option Bool
    ge_cmp lhs rhs = negated (lt_cmp lhs rhs)

  -- The functions with the operators `!=` and `<` of the type.
  module _ (differ less : A → A → Bool) where
    pub eq : Vector A → Vector A → Option Bool
    eq = eq_by differ

    pub ne : Vector A → Vector A → Option Bool
    ne lhs rhs = negated (eq lhs rhs)

    unfoldable pub lt : Vector A → Vector A → Option Bool
    lt = lt_by less

    pub gt : Vector A → Vector A → Option Bool
    gt lhs rhs = lt rhs lhs

    pub le : Vector A → Vector A → Option Bool
    le lhs rhs = negated (lt rhs lhs)

    pub ge : Vector A → Vector A → Option Bool
    ge lhs rhs = negated (lt lhs rhs)
