-- ===== src/Containers/Tests.antt =====
-- Runs of the models of src/rbc/containers, and the theorems at concrete vectors.
use rubidium_c.Prelude.{
  ℕ, ◌-◌, sym, some-injective, ◌≡◌, refl, inr, Bool, true, ltb, ◌==◌, not, Option, some, List, [],
  ◌∷◌, replicate, take, drop, arith,
}
use rubidium_c.Prelude.Int.{ℤ, sub_ℕ}
use rubidium_c.Containers.Vector.{
  Vector, Outcome, with_size, with_size_and_value, from, from_list, copy, at, at_ref, front,
  front_ref, back, back_ref, last_index, eq, ne, lt, gt, le, ge, lt_by, lt_loop,
}
use rubidium_c.Containers.Vector.Contents.{contents, IsValid, Represents, IsCalloc}
use rubidium_c.Containers.Vector.Construct.{constructors_lem}
use rubidium_c.Containers.Vector.Access.{checked, checked_index, last, access_lem}
use rubidium_c.Containers.Vector.Compare.{same_lists, lex, compare_lem}

abbrev three : Vector ℕ
three = record { elements = some (7 ∷ 8 ∷ 9 ∷ []); size = 3; cap = 3 }

three-IsValid : IsValid three
three-IsValid = record { sized = refl; within = omega arith }

abbrev two : Vector ℕ
two = record { elements = some (7 ∷ 9 ∷ []); size = 2; cap = 4 }

two-IsValid : IsValid two
two-IsValid = record { sized = refl; within = omega arith }

-- An allocator that never fails.
abbrev calloc : ℕ → Option (List ℕ)
calloc n = some (replicate n 0)

calloc-IsCalloc : IsCalloc calloc 0
calloc-IsCalloc n block same = some-injective (sym same)

abbrev array : List ℕ
array = 4 ∷ 5 ∷ 6 ∷ 7 ∷ []

constructors_lem_example :
    Represents (some (with_size calloc 2)) (replicate 2 0)
    × Represents (with_size_and_value calloc 2 5) (replicate 2 5)
    × Represents (from calloc array 1 3) (take (3 - 1) (drop 1 array))
    × Represents (from_list calloc 4 array) array
    × Represents (copy calloc three) (contents three)
constructors_lem_example =
    constructors_lem calloc 0 calloc-IsCalloc (λ n. inr (replicate n 0, refl)) 2 5 array 1 3 three
      (omega arith) (omega arith) three-IsValid

access_lem_example :
    (at three 1 ≡ some (checked (contents three) 1))
    × (at_ref three 1 ≡ some (checked_index (contents three) 1))
    × (front three ≡ some (checked (contents three) 0))
    × (front_ref three ≡ some (checked_index (contents three) 0))
    × (back three ≡ some (last (contents three)))
    × (back_ref three ≡ some (checked_index (contents three) (last_index three)))
access_lem_example = access_lem three 1 three-IsValid (omega arith)

back_of_three : back three ≡ some (Outcome.returned 9)
unfolding back at
back_of_three = refl

abbrev differ : ℕ → ℕ → Bool
differ x y = not (x == y)

compare_lem_example :
    (eq differ ltb three two ≡ some (same_lists differ (contents three) (contents two)))
    × (ne differ ltb three two ≡ some (not (same_lists differ (contents three) (contents two))))
    × (lt differ ltb three two ≡ some (lex ltb (contents three) (contents two)))
    × (gt differ ltb three two ≡ some (lex ltb (contents two) (contents three)))
    × (le differ ltb three two ≡ some (not (lex ltb (contents two) (contents three))))
    × (ge differ ltb three two ≡ some (not (lex ltb (contents three) (contents two))))
compare_lem_example = compare_lem differ ltb three two three-IsValid two-IsValid

compare_run : lt differ ltb three two ≡ some true
unfolding lt lt_by lt_loop
compare_run = refl

abbrev cmp : ℕ → ℕ → ℤ
cmp x y = sub_ℕ x y
