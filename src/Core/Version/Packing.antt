-- ===== src/Core/Version/Packing.antt =====
-- The packed form of the versions of src/rbc/core/version.c.
use rubidium_c.Prelude.{ℕ, ◌-◌, refl, ◌/◌, ◌%◌, ◌^◌, ◌<◌, ◌≡◌, true, ltb, arith}
use rubidium_c.Core.Version.{
  Version, VersionComponent, major_component, minor_component, patch_component, pack, unpack, bump,
  lt,
}

-- The components fit their bits.
pub record InBits (v : Version) : Type 0 where
  pub major : v.major < 2 ^ 8
  pub minor : v.minor < 2 ^ 8
  pub patch : v.patch < 2 ^ 16

module _ (v : Version) (bits : InBits v) where
  major-pack : pack v / 2 ^ 24 % 2 ^ 8 ≡ v.major
  unfolding pack
  major-pack = omega (arith, bits.major, bits.minor, bits.patch)

  minor-pack : pack v / 2 ^ 16 % 2 ^ 8 ≡ v.minor
  unfolding pack
  minor-pack = omega (arith, bits.major, bits.minor, bits.patch)

  patch-pack : pack v % 2 ^ 16 ≡ v.patch
  unfolding pack
  patch-pack = omega (arith, bits.major, bits.minor, bits.patch)

-- A version whose components fit 8, 8 and 16 bits is unpacked from what it is packed into.
pub unpack-pack : (v : Version) → InBits v → unpack (pack v) ≡ v
unfolding unpack
unpack-pack v bits = rw (major-pack v bits, minor-pack v bits, patch-pack v bits) refl

-- Every 32-bit number is packed again from what it is unpacked into.
pub pack-unpack : (value : ℕ) → value < 2 ^ 32 → pack (unpack value) ≡ value
unfolding unpack pack
pack-unpack value word = omega arith

-- Of two versions whose components fit their bits, one is below the other exactly where its packed
-- form is.
pub lt-pack : (v w : Version) → InBits v → InBits w → lt v w ≡ ltb (pack v) (pack w)
unfolding lt pack
lt-pack v w hv hw = ground (arith, hv.major, hv.minor, hv.patch, hw.major, hw.minor, hw.patch)

-- A version is below what any of its components is bumped to, where that component is not the
-- greatest 32-bit number.
pub lt-bump :
    (v : Version) (component : VersionComponent)
    → v.major < 2 ^ 32 - 1
    → v.minor < 2 ^ 32 - 1
    → v.patch < 2 ^ 32 - 1
    → lt v (bump v component) ≡ true
unfolding lt bump
lt-bump v major_component major minor patch = ground (arith, major)
lt-bump v minor_component major minor patch = ground (arith, minor)
lt-bump v patch_component major minor patch = ground (arith, patch)

-- Packing and unpacking are inverse to each other between the versions whose components fit 8, 8 and
-- 16 bits and the 32-bit numbers, and packed versions compare as numbers.
pub packing_lem :
    (v w : Version) (value : ℕ)
    → InBits v
    → InBits w
    → value < 2 ^ 32
    → (unpack (pack v) ≡ v) × (pack (unpack value) ≡ value) × (lt v w ≡ ltb (pack v) (pack w))
packing_lem v w value hv hw word = (unpack-pack v hv, pack-unpack value word, lt-pack v w hv hw)
