-- ===== src/Prelude/Wrap.antt =====
-- What `wrap` does to a number that one signed addition or subtraction can give.
use Prim.Native.Nat.{ℕ, ◌+◌, ◌≤◌, ◌<◌}
use mathlib.Core.Path.{◌≡◌}
use mathlib.Core.Logic.{◌⊎◌}
use native.Mathlib.Omega.{arith}
use native.Mathlib.Nat.{mod-eq_of_lt, mod-lt}
use rubidium_c.Prelude.Int.{ℤ, pos, negsuc, pos_part, neg_part, wrap, InRange, parts_disjoint}

pub wrap_range : (half : ℕ) (a : ℤ) → 0 < half → InRange half (wrap half a)
unfolding wrap
wrap_range half (pos n) h = ground (arith, mod-lt n {m = half + half} (omega arith))
wrap_range half (negsuc n) h = ground (arith, mod-lt n {m = half + half} (omega arith))

-- A number in range is stored as it is.
pub wrap_same : (half : ℕ) (a : ℤ) → pos_part a < half → neg_part a ≤ half → wrap half a ≡ a
unfolding wrap
wrap_same half (pos n) h k = ground (arith, mod-eq_of_lt {n = n} {m = half + half} (omega arith))
wrap_same half (negsuc n) h k = ground (arith, mod-eq_of_lt {n = n} {m = half + half} (omega arith))

-- `w` is `a`, or `a` moved into range by one modulus.
abbrev pub Wraps : ℕ → ℤ → ℤ → Type 0
Wraps half a w =
    (pos_part a < half)
      × (neg_part a ≤ half)
      × (pos_part w ≡ pos_part a)
      × (neg_part w ≡ neg_part a)
    ⊎ ((half ≤ pos_part a) × (pos_part w ≡ 0) × (neg_part w + pos_part a ≡ half + half)
        ⊎ (half < neg_part a) × (neg_part w ≡ 0) × (pos_part w + neg_part a ≡ half + half))

pub wrap_cases :
    (half : ℕ) (a : ℤ)
    → pos_part a < half + half
    → neg_part a ≤ half + half
    → Wraps half a (wrap half a)
unfolding wrap
wrap_cases half (pos n) h k = ground (arith, mod-eq_of_lt {n = n} {m = half + half} (omega arith))
wrap_cases half (negsuc n) h k =
    ground (arith, mod-eq_of_lt {n = n} {m = half + half} (omega arith))

-- Wrapping before a further step (`u` is `a + p - n`, `t` the same from the wrapped `a`) changes
-- nothing in what is stored in the end.
pub wrap_step :
    (half : ℕ) (a u t : ℤ) (p n : ℕ)
    → 1 < half
    → p + n ≤ half
    → pos_part a < half + half
    → neg_part a ≤ half + half
    → pos_part u < half + half
    → neg_part u ≤ half + half
    → pos_part u + neg_part a + n ≡ neg_part u + pos_part a + p
    → pos_part t + neg_part (wrap half a) + n ≡ neg_part t + pos_part (wrap half a) + p
    → Wraps half u (wrap half t)
wrap_step half a u t p n h s ha ka hu ku eu et =
    let range = wrap_range half a (omega arith) in
    ground (
      arith,
      wrap_cases half a ha ka,
      range,
      wrap_cases half t (omega (arith, parts_disjoint t)) (omega (arith, parts_disjoint t)),
      parts_disjoint a,
      parts_disjoint u,
      parts_disjoint t,
    )
