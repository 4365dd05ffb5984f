-- ===== src/Containers/Array.antt =====
-- The functions that `RBC_ARRAY_IMPL_GENERIC` of src/rbc/containers/array.h defines, for elements of
-- `width` bytes. `malloc` is a parameter, and a block is the list of its bytes.
use rubidium_c.Prelude.{ℕ, ◌*◌, ◌%◌, ◌^◌, Option, List}

pub record Array : Type 0 where
  pub elements : Option (List ℕ)
  pub size : ℕ

-- The product is of type usize.
pub array_new : (ℕ → Option (List ℕ)) → ℕ → ℕ → Array
array_new malloc width size = record { elements = malloc (size * width % 2 ^ 64); size = size }

-- The array as it is left, and the pointer that is freed: nothing is reset.
pub array_delete : Array → Array × Option (List ℕ)
array_delete self = (self, self.elements)
