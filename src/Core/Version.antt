-- ===== src/Core/Version.antt =====
-- src/rbc/core/version.h and version.c: versions, packed and compared.
-- The masks and shifts of unsigned numbers stand as remainders, quotients and products by powers of
-- two; `unsigned` has 32 bits.
pub mod Packing
pub mod Order
use rubidium_c.Prelude.{
  ℕ, ◌+◌, ◌*◌, ◌/◌, ◌%◌, ◌^◌, ◌≤◌, ◌<◌, ◌≡◌, ◌↔◌, ◌⊎◌, Bool, true, false, not, ◌&&◌, ltb, ◌==◌,
  if◌then◌else◌, arith,
}

pub record Version : Type 0 where
  pub major : ℕ
  pub minor : ℕ
  pub patch : ℕ

pub data VersionComponent : Type 0 where
  major_component minor_component patch_component : VersionComponent

-- The masks keep 8, 8 and 16 bits at three places, so the bitwise or is a sum.
pub pack : Version → ℕ
pack version =
    version.major % 2 ^ 8 * 2 ^ 24 + version.minor % 2 ^ 8 * 2 ^ 16 + version.patch % 2 ^ 16

pub unpack : ℕ → Version
unpack value = record {
  major = value / 2 ^ 24 % 2 ^ 8;
  minor = value / 2 ^ 16 % 2 ^ 8;
  patch = value % 2 ^ 16;
}

pub bump : Version → VersionComponent → Version
bump version major_component = record { major = (version.major + 1) % 2 ^ 32; minor = 0; patch = 0 }
bump version minor_component = record {
  major = version.major;
  minor = (version.minor + 1) % 2 ^ 32;
  patch = 0;
}
bump version patch_component = record {
  major = version.major;
  minor = version.minor;
  patch = (version.patch + 1) % 2 ^ 32;
}

pub eq : Version → Version → Bool
eq lhs rhs = lhs.major == rhs.major && lhs.minor == rhs.minor && lhs.patch == rhs.patch

pub ne : Version → Version → Bool
ne lhs rhs = not (eq lhs rhs)

pub lt : Version → Version → Bool
lt lhs rhs =
    if ltb lhs.major rhs.major
    then true
    else if ltb rhs.major lhs.major
    then false
    else if ltb lhs.minor rhs.minor
    then true
    else if ltb rhs.minor lhs.minor
    then false
    else ltb lhs.patch rhs.patch

pub le : Version → Version → Bool
le lhs rhs = not (lt rhs lhs)

pub gt : Version → Version → Bool
gt lhs rhs = lt rhs lhs

pub ge : Version → Version → Bool
ge lhs rhs = not (lt lhs rhs)
