-- ===== src/Utils/Swap/Tests.antt =====
-- The exchanges of src/rbc/utils/swap.h on a memory of six bytes.
use rubidium_c.Prelude.{◌≡◌, refl, false, some, [], ◌∷◌}
use rubidium_c.Utils.Swap.{swap_impl}
use rubidium_c.Utils.Swap.Exchange.{swap_impl-laid}

swap_impl-laid_example :
    (swap_impl false (9 ∷ 1 ∷ 2 ∷ 8 ∷ 3 ∷ 4 ∷ []) 1 4 2 ≡ some (9 ∷ 3 ∷ 4 ∷ 8 ∷ 1 ∷ 2 ∷ []))
    × (swap_impl false (9 ∷ 1 ∷ 2 ∷ 8 ∷ 3 ∷ 4 ∷ []) 4 1 2 ≡ some (9 ∷ 3 ∷ 4 ∷ 8 ∷ 1 ∷ 2 ∷ []))
swap_impl-laid_example = swap_impl-laid false (9 ∷ []) (1 ∷ 2 ∷ []) (8 ∷ []) (3 ∷ 4 ∷ []) [] refl
