-- ===== src/Time/Duration/Spec.antt =====
-- The abstract view of src/rbc/time/duration.c: a duration is an exact count of ticks between two
-- infinities, and sums saturate. The refinement theorems compare the code with this.
use rubidium_c.Prelude.{ℕ, ◌+◌, ◌-◌, ◌*◌, ◌<◌, ◌^◌, ◌≡◌, ◌⊎◌, if◌then◌else◌, false, refl, arith}
use rubidium_c.Prelude.Int.{
  ℤ, pos, negsuc, ◌+ℤ◌, ◌-ℤ◌, ◌*ℤ◌, ◌<ℤ◌, ltb_ℤ, pos_part, neg_part, +ℤ_parts, *ℤ_parts,
  parts_disjoint,
}
use rubidium_c.Prelude.Word.{IsI64}
use rubidium_c.Time.Duration.{
  Duration, duration_inf, duration_neg_inf, ticks_per_second, is_inf, is_neg,
}

pub data Extended : Type 0 where
  neg_inf : Extended
  fin : ℤ → Extended
  pos_inf : Extended

-- All the ticks of a finite duration.
unfoldable pub total : Duration → ℤ
total d = d.secs *ℤ ticks_per_second +ℤ pos d.ticks

unfoldable pub view : Duration → Extended
view d = if is_inf d then if is_neg d then neg_inf else pos_inf else fin (total d)

abbrev pub IsFinite : Duration → Type 0
IsFinite d = IsI64 d.secs × (d.ticks < ticks_per_second)

-- What the operations of the component build: a finite duration or one of the two infinities.
abbrev pub IsValid : Duration → Type 0
IsValid d = IsFinite d ⊎ ((d ≡ duration_inf) ⊎ (d ≡ duration_neg_inf))

-- The first count of ticks beyond a representable one, on either side of zero.
abbrev pub tick_limit : ℕ
tick_limit = 2 ^ 63 * ticks_per_second

-- A count of ticks that does not fit becomes the infinity on its side.
unfoldable pub saturate : ℤ → Extended
saturate v =
    if ltb_ℤ v (negsuc (tick_limit - 1))
    then neg_inf
    else if ltb_ℤ v (pos tick_limit)
    then fin v
    else pos_inf

-- An infinity on the left wins over one on the right.
unfoldable pub add_extended : Extended → Extended → Extended
add_extended neg_inf y = neg_inf
add_extended pos_inf y = pos_inf
add_extended (fin a) neg_inf = neg_inf
add_extended (fin a) (fin b) = saturate (a +ℤ b)
add_extended (fin a) pos_inf = pos_inf

unfoldable pub neg_extended : Extended → Extended
neg_extended neg_inf = pos_inf
neg_extended (fin a) = saturate (pos 0 -ℤ a)
neg_extended pos_inf = neg_inf

unfoldable pub sub_extended : Extended → Extended → Extended
sub_extended neg_inf y = neg_inf
sub_extended pos_inf y = pos_inf
sub_extended (fin a) neg_inf = pos_inf
sub_extended (fin a) (fin b) = saturate (a -ℤ b)
sub_extended (fin a) pos_inf = neg_inf

abbrev pub Below : Extended → Extended → Type 0
Below neg_inf neg_inf = ⊥
Below neg_inf (fin b) = Unit
Below neg_inf pos_inf = Unit
Below (fin a) neg_inf = ⊥
Below (fin a) (fin b) = a <ℤ b
Below (fin a) pos_inf = Unit
Below pos_inf y = ⊥

-- A finite duration is seen as finite.
pub view_finite : (d : Duration) → IsFinite d → (is_inf d ≡ false) × (view d ≡ fin (total d))
unfolding view is_inf
view_finite d (hd, td) = (ground arith, ground arith)

pub view_inf : view duration_inf ≡ pos_inf
unfolding view is_inf is_neg
view_inf = refl

pub view_neg_inf : view duration_neg_inf ≡ neg_inf
unfolding view is_inf is_neg
view_neg_inf = refl

-- The ticks of a duration as an equation between numbers.
pub total_lem :
    (d : Duration)
    → pos_part (total d) + neg_part d.secs * ticks_per_second
      ≡ neg_part (total d) + pos_part d.secs * ticks_per_second + d.ticks
unfolding total
total_lem d =
    omega
      (arith, +ℤ_parts (d.secs *ℤ ticks_per_second) (pos d.ticks), *ℤ_parts d.secs ticks_per_second)

-- A finite duration whose ticks are `v` has the view that `v` saturates to.
pub view_exact : (d : Duration) (v : ℤ) → IsFinite d → total d ≡ v → view d ≡ saturate v
unfolding saturate
view_exact d v h e =
    rw ((view_finite d h).1, ← e)
      (ground (arith, total_lem d, parts_disjoint (total d), parts_disjoint d.secs))
