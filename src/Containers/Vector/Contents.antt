-- ===== src/Containers/Vector/Contents.antt =====
-- What a vector of src/rbc/containers/vector.h stands for: the list of its elements.
use rubidium_c.Prelude.{
  ℕ, ◌≤◌, ◌≡◌, ◌⊎◌, Option, some, none, List, [], length, replicate, get_elem?, refl,
}
use rubidium_c.Containers.Vector.{Vector, element}

module _ {ℓ} {A : Type ℓ} where
  -- A null pointer holds no element.
  abbrev pub elements_of : Option (List A) → List A
  elements_of none = []
  elements_of (some xs) = xs

  abbrev pub contents : Vector A → List A
  contents v = elements_of v.elements

  element-elements_of :
      (block : Option (List A)) (i : ℕ) → element block i ≡ get_elem? (elements_of block) i
  element-elements_of none i = refl
  element-elements_of (some xs) i = refl

  -- Reading the block is reading the contents.
  pub element-contents : (v : Vector A) (i : ℕ) → element v.elements i ≡ get_elem? (contents v) i
  element-contents v i = element-elements_of v.elements i

  -- The block has exactly the elements, and the capacity is not below their number.
  pub record IsValid (v : Vector A) : Type 0 where
    pub sized : v.size ≡ length (contents v)
    pub within : v.size ≤ v.cap

  -- The result is a valid vector of these elements.
  pub record Represents (result : Option (Vector A)) (xs : List A) : Type ℓ where
    pub vector : Vector A
    pub built : result ≡ some vector
    pub valid : IsValid vector
    pub holds : contents vector ≡ xs

  -- `calloc` returns as many zero elements as it is asked for, if any block.
  abbrev pub IsCalloc : (ℕ → Option (List A)) → A → Type ℓ
  IsCalloc calloc zero_element =
      (n : ℕ) (block : List A) → calloc n ≡ some block → block ≡ replicate n zero_element

  -- There is memory for so many elements; none is asked for where there are none.
  abbrev pub Granted : (ℕ → Option (List A)) → ℕ → Type ℓ
  Granted calloc n = (n ≡ 0) ⊎ ((block : List A) × (calloc n ≡ some block))
