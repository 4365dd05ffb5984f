-- ===== src/Time/Duration/Refinement.antt =====
-- `rbc_duration_add` and `rbc_duration_sub` of src/rbc/time/duration.c against saturating
-- arithmetic on exact tick counts.
use rubidium_c.Prelude.{◌≡◌, refl, inl, inr}
use rubidium_c.Prelude.Int.{◌+ℤ◌}
use rubidium_c.Time.Duration.{Duration, is_inf, is_neg, add, sub}
use rubidium_c.Time.Duration.Spec.{
  view, total, saturate, IsFinite, IsValid, add_extended, sub_extended, view_finite, view_inf,
  view_neg_inf,
}
use rubidium_c.Time.Duration.Sum.{view-add_finite, add_finite-IsValid}
use rubidium_c.Time.Duration.Difference.{view-sub_finite, sub_finite-IsValid}

-- Of two finite durations.
pub view-add_of_finite :
    (l r : Duration) → IsFinite l → IsFinite r → view (add l r) ≡ saturate (total l +ℤ total r)
unfolding add
view-add_of_finite l r hl hr =
    rw ((view_finite l hl).0, (view_finite r hr).0) (view-add_finite l r hl hr)

-- The sum of two well-formed durations stands for the sum of what they stand for: exact where a
-- duration can hold it, the infinity on its side elsewhere, and an infinite operand wins, the left
-- one first. The sum is well formed again.
pub view-add :
    (l r : Duration)
    → IsValid l
    → IsValid r
    → (view (add l r) ≡ add_extended (view l) (view r)) × IsValid (add l r)
unfolding add is_inf is_neg add_extended
view-add l r (inl hl) (inl hr) =
    rw ((view_finite l hl).0, (view_finite r hr).0, (view_finite l hl).1, (view_finite r hr).1)
      (view-add_finite l r hl hr, add_finite-IsValid l r hl hr)
view-add l r (inl hl) (inr (inl e)) =
    rw (e, (view_finite l hl).0, (view_finite l hl).1, view_inf) (refl, inr (inl refl))
view-add l r (inl hl) (inr (inr e)) =
    rw (e, (view_finite l hl).0, (view_finite l hl).1, view_neg_inf) (refl, inr (inr refl))
view-add l r (inr (inl e)) hr = rw (e, view_inf) (refl, inr (inl refl))
view-add l r (inr (inr e)) hr = rw (e, view_neg_inf) (refl, inr (inr refl))

-- The difference of two well-formed durations stands for the difference of what they stand for,
-- with the same saturation; an infinity on the right counts against its sign. The difference is
-- well formed again.
pub view-sub :
    (l r : Duration)
    → IsValid l
    → IsValid r
    → (view (sub l r) ≡ sub_extended (view l) (view r)) × IsValid (sub l r)
unfolding sub is_inf is_neg sub_extended
view-sub l r (inl hl) (inl hr) =
    rw ((view_finite l hl).0, (view_finite r hr).0, (view_finite l hl).1, (view_finite r hr).1)
      (view-sub_finite l r hl hr, sub_finite-IsValid l r hl hr)
view-sub l r (inl hl) (inr (inl e)) =
    rw (e, (view_finite l hl).0, (view_finite l hl).1, view_inf) (view_neg_inf, inr (inr refl))
view-sub l r (inl hl) (inr (inr e)) =
    rw (e, (view_finite l hl).0, (view_finite l hl).1, view_neg_inf) (view_inf, inr (inl refl))
view-sub l r (inr (inl e)) hr = rw (e, view_inf) (refl, inr (inl refl))
view-sub l r (inr (inr e)) hr = rw (e, view_neg_inf) (refl, inr (inr refl))
