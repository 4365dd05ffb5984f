-- ===== src/Time/Duration/Units.antt =====
-- `from_i64` of src/rbc/time/duration.c, which the factory functions share: a count of units becomes
-- whole seconds and a rest that is never negative.
use native.Mathlib.Nat.{
  mul_left_comm, mul-div_cancel_left, mul-lt-mul_of_pos_right, mul-le-mul_left, div-le_self, mod-lt,
  div-add-mod',
}
use rubidium_c.Prelude.{ℕ, zero, suc, sym, ap, ◌∙◌, ◌+◌, ◌-◌, ◌*◌, ◌/◌, ◌%◌, ◌≤◌, ◌<◌, ◌≡◌, arith}
use rubidium_c.Prelude.Int.{
  ℤ, pos, negsuc, pos_part, neg_part, -ℤ_parts, parts_disjoint, ◌*ℤ◌, ◌-ℤ◌, ◌+ℤ◌, ◌/ℤ◌, ◌%ℤ◌, wrap,
  *ℤ_exact, /ℤ_exact, %ℤ_exact,
}
use rubidium_c.Prelude.Word.{half_64, i64, IsI64, u32_of}
use rubidium_c.Prelude.Wrap.{wrap_same}
use rubidium_c.Time.Duration.{Duration, ticks_per_second, from_i64, make_normalized_duration}
use rubidium_c.Time.Duration.Spec.{total, total_lem, IsFinite}

-- `d` is finite and holds `k` ticks for each of `n` units.
abbrev pub Exact : ℕ → ℤ → Duration → Type 0
Exact k n d =
    IsFinite d × (pos_part (total d) + neg_part n * k ≡ neg_part (total d) + pos_part n * k)

rest_facts :
    (r ratio k : ℕ)
    → r < ratio
    → ratio * k ≡ ticks_per_second
    → ratio ≤ 1_000_000_000
    → (r * ticks_per_second / ratio ≡ r * k)
      × (r * k < ticks_per_second)
      × (r * ticks_per_second < half_64)
rest_facts r ratio k lt e small = (
  ap (λ (t : ℕ). t / ratio) (ap (λ (t : ℕ). r * t) (sym e) ∙ mul_left_comm r ratio k)
      ∙ mul-div_cancel_left (r * k) (omega arith),
  omega (arith, mul-lt-mul_of_pos_right lt (k_pos k e)),
  omega arith,
)
  where
    k_pos : (k : ℕ) → ratio * k ≡ ticks_per_second → 0 < k
    k_pos zero z = absurd (omega arith)
    k_pos (suc k) z = omega arith

from_i64_rest :
    (v : ℤ) (ratio k : ℕ)
    → 0 < ratio
    → ratio * k ≡ ticks_per_second
    → ratio ≤ 1_000_000_000
    → let s = i64 ((v %ℤ ratio) *ℤ ticks_per_second) /ℤ ratio in
      (pos_part s ≡ pos_part v % ratio * k)
      × (neg_part s ≡ neg_part v % ratio * k)
      × (pos_part s < ticks_per_second)
      × (neg_part s < ticks_per_second)
from_i64_rest v ratio k h e small = rw kept (
    ground (
      arith,
      /ℤ_exact scaled ratio,
      *ℤ_exact rem ticks_per_second,
      %ℤ_exact v ratio,
      rest_facts (pos_part v % ratio) ratio k (mod-lt (pos_part v) h) e small,
      rest_facts (neg_part v % ratio) ratio k (mod-lt (neg_part v) h) e small,
    ))
  where
    rem : ℤ
    rem = v %ℤ ratio

    scaled : ℤ
    scaled = rem *ℤ ticks_per_second

    kept : i64 scaled ≡ scaled
    kept =
        wrap_same half_64 scaled
          (ground (
            arith,
            *ℤ_exact rem ticks_per_second,
            %ℤ_exact v ratio,
            rest_facts (pos_part v % ratio) ratio k (mod-lt (pos_part v) h) e small,
          ))
          (ground (
            arith,
            *ℤ_exact rem ticks_per_second,
            %ℤ_exact v ratio,
            rest_facts (neg_part v % ratio) ratio k (mod-lt (neg_part v) h) e small,
          ))

-- A rest below one second in size, of either sign, is moved to a non-negative one.
normalized :
    (q s : ℤ)
    → IsI64 q
    → pos_part s < ticks_per_second
    → neg_part s < ticks_per_second
    → (0 < neg_part s → neg_part q < half_64)
    → let d = make_normalized_duration q s in
      IsFinite d
      × (pos_part (total d) + neg_part q * ticks_per_second + neg_part s
          ≡ neg_part (total d) + pos_part q * ticks_per_second + pos_part s)
unfolding make_normalized_duration u32_of
normalized q (pos s) hq hp hn room = ground (arith, total_lem (record { secs = q; ticks = s }))
normalized q (negsuc s) hq hp hn room =
    rw
      (
        wrap_same half_64 (q -ℤ pos 1)
            (ground (arith, less, parts_disjoint q, parts_disjoint (q -ℤ pos 1)))
            (ground (arith, less, parts_disjoint q, parts_disjoint (q -ℤ pos 1))),
        rest,
      )
      (ground (
        arith,
        less,
        parts_disjoint q,
        parts_disjoint (q -ℤ pos 1),
        total_lem (record { secs = q -ℤ pos 1; ticks = ticks_per_second - suc s }),
      ))
  where
    less : pos_part (q -ℤ pos 1) + neg_part q + 1 ≡ neg_part (q -ℤ pos 1) + pos_part q
    less = omega (arith, -ℤ_parts q (pos 1))

    rest : i64 (negsuc s +ℤ pos ticks_per_second) ≡ pos (ticks_per_second - suc s)
    rest = unfold ◌+ℤ◌ wrap in ground arith

scaled_split :
    (p ratio k : ℕ)
    → ratio * k ≡ ticks_per_second
    → p * k ≡ p / ratio * ticks_per_second + p % ratio * k
scaled_split p ratio k e =
    omega (arith, ap (λ (t : ℕ). t * k) (div-add-mod' p ratio), ap (λ (t : ℕ). p / ratio * t) e)

pos_of_product : (a b : ℕ) → 0 < a * b → 0 < a
pos_of_product zero b h = absurd (omega arith)
pos_of_product (suc a) b h = omega arith

-- Only an inexact quotient loses a second, and then it is not the least one.
room_below : (m ratio k : ℕ) → 0 < ratio → m ≤ half_64 → 0 < m % ratio * k → m / ratio < half_64
room_below m ratio k h le p =
    omega
      (arith, pos_of_product (m % ratio) k p, div-add-mod' m ratio, mul-le-mul_left (m / ratio) h)

pub from_i64-Exact :
    (v : ℤ) (ratio k : ℕ)
    → IsI64 v
    → 0 < ratio
    → ratio * k ≡ ticks_per_second
    → ratio ≤ 1_000_000_000
    → Exact k v (from_i64 v ratio)
unfolding from_i64
from_i64-Exact v ratio k hv h e small =
    let rem = v %ℤ ratio in
    let s = i64 (rem *ℤ ticks_per_second) /ℤ ratio in
    let q = v /ℤ ratio in
    let facts = from_i64_rest v ratio k h e small in
    let n =
      normalized q s
        (omega
          (arith, /ℤ_exact v ratio, div-le_self (pos_part v) ratio, div-le_self (neg_part v) ratio))
        (facts.2) (facts.3)
        (λ p. ground (arith, /ℤ_exact v ratio, facts, room_below (neg_part v) ratio k h hv.1)) in
    (
      n.0,
      omega (
        arith,
        n.1,
        facts,
        /ℤ_exact v ratio,
        scaled_split (pos_part v) ratio k e,
        scaled_split (neg_part v) ratio k e,
      ),
    )
