-- ===== src/Time/Duration/Overflow.antt =====
-- The overflow test that `rbc_duration_add` and `rbc_duration_sub` of src/rbc/time/duration.c share:
-- the wrapped seconds are compared with those of the left operand.
use rubidium_c.Prelude.{
  ℕ, ◌+◌, ◌*◌, ◌≤◌, ◌<◌, ◌≡◌, arith, if◌then◌else◌, Bool, true, false, refl, inl, inr,
}
use rubidium_c.Prelude.Int.{ℤ, pos_part, neg_part, ◌≤ℤ◌, ltb_ℤ, int_laws, parts_disjoint}
use rubidium_c.Prelude.Word.{half_64, IsI64}
use rubidium_c.Prelude.Wrap.{Wraps}
use rubidium_c.Time.Duration.{
  Duration, duration_inf, duration_neg_inf, ticks_per_second, is_inf, is_neg,
}
use rubidium_c.Time.Duration.Spec.{total, view, saturate, IsValid}

-- `u` is the true number of seconds and `s` the stored one, `v` the true number of ticks.
module _ (x u s v : ℤ) (t : ℕ) (hx : IsI64 x) (w : Wraps half_64 u s) (ht : t < ticks_per_second)
    (hv : pos_part v + neg_part u * ticks_per_second
      ≡ neg_part v + pos_part u * ticks_per_second + t) where
  abbrev stored : Duration
  stored = record { secs = s; ticks = t }

  total-stored : pos_part s ≡ pos_part u → neg_part s ≡ neg_part u → total stored ≡ v
  unfolding total
  total-stored p n = omega (int_laws, hv)

  pub view_down :
      u ≤ℤ x
      → pos_part x + neg_part u ≤ neg_part x + pos_part u + half_64
      → view (if ltb_ℤ x s then duration_neg_inf else stored) ≡ saturate v
  unfolding view is_inf is_neg saturate
  view_down below near =
      ground (arith, w, hv, parts_disjoint u, parts_disjoint v, parts_disjoint x, total-stored)

  pub view_up :
      x ≤ℤ u
      → pos_part u + neg_part x ≤ neg_part u + pos_part x + half_64
      → view (if ltb_ℤ s x then duration_inf else stored) ≡ saturate v
  unfolding view is_inf is_neg saturate
  view_up above near =
      ground (arith, w, hv, parts_disjoint u, parts_disjoint v, parts_disjoint x, total-stored)

  -- Whichever side the test is for, what comes out is well formed.
  pub checked-IsValid :
      (overflow negative : Bool)
      → IsI64 s
      → IsValid (if overflow then if negative then duration_neg_inf else duration_inf else stored)
  checked-IsValid true true h = inr (inr refl)
  checked-IsValid true false h = inr (inl refl)
  checked-IsValid false negative h = inl (h, ht)
