-- ===== src/Core/Version/Order.antt =====
-- The order of the versions of src/rbc/core/version.c.
use rubidium_c.Prelude.{◌<◌, ◌≡◌, ◌↔◌, ◌⊎◌, true, false, not, if◌then◌else◌, arith}
use rubidium_c.Core.Version.{Version, lt, le, gt, ge, eq, ne}

-- The lexicographic order of the components.
abbrev pub Before : Version → Version → Type 0
Before v w =
    (v.major < w.major)
    ⊎ (v.major ≡ w.major) × ((v.minor < w.minor) ⊎ (v.minor ≡ w.minor) × (v.patch < w.patch))

-- The comparison is the lexicographic order of major, minor and patch.
pub lt-Before_iff : (v w : Version) → (lt v w ≡ true) ↔ Before v w
unfolding lt
lt-Before_iff v w = ground arith

-- Exactly one of lt, eq and gt holds of two versions; le is lt or eq, ge is gt or eq, and ne is the
-- opposite of eq.
pub versions_agree :
    (v w : Version)
    → (((lt v w ≡ true) × (eq v w ≡ false) × (gt v w ≡ false))
        ⊎ ((lt v w ≡ false) × (eq v w ≡ true) × (gt v w ≡ false))
        ⊎ ((lt v w ≡ false) × (eq v w ≡ false) × (gt v w ≡ true)))
      × (le v w ≡ (if lt v w then true else eq v w))
      × (ge v w ≡ (if gt v w then true else eq v w))
      × (ne v w ≡ not (eq v w))
unfolding lt le gt ge eq ne
versions_agree v w = ground arith

-- For two versions: lt is the lexicographic order of major, minor and patch, exactly one of lt, eq and
-- gt holds, le is lt or eq, ge is gt or eq, and ne is the opposite of eq.
pub order_lem :
    (v w : Version)
    → ((lt v w ≡ true) ↔ Before v w)
      × (((lt v w ≡ true) × (eq v w ≡ false) × (gt v w ≡ false))
          ⊎ ((lt v w ≡ false) × (eq v w ≡ true) × (gt v w ≡ false))
          ⊎ ((lt v w ≡ false) × (eq v w ≡ false) × (gt v w ≡ true)))
      × (le v w ≡ (if lt v w then true else eq v w))
      × (ge v w ≡ (if gt v w then true else eq v w))
      × (ne v w ≡ not (eq v w))
order_lem v w =
    let (one_of, le_eq, ge_eq, ne_eq) = versions_agree v w in
    (lt-Before_iff v w, one_of, le_eq, ge_eq, ne_eq)
