-- ===== src/Charconv/Types.antt =====
-- What the conversions of src/rbc/utils/charconv.h share: the integer types, the results, and what
-- is used of <ctype.h>, which is not code of the repository.
use rubidium_c.Prelude.{
  ℕ, ◌-◌, ◌^◌, ◌≡◌, ◌≢◌, Bool, true, false, ◌&&◌, leb, Option, List, take, drop,
}
use rubidium_c.Prelude.Int.{ℤ, negsuc}
use rubidium_c.Core.Error.{Error}

pub data SignedType : Type 0 where
  i8 i16 i32 i64 : SignedType

pub data UnsignedType : Type 0 where
  u8 u16 u32 u64 : UnsignedType

-- The constants `i8max` and so on; the least value is one further from zero.
abbrev pub signed_max : SignedType → ℕ
signed_max i8 = 2 ^ 7 - 1
signed_max i16 = 2 ^ 15 - 1
signed_max i32 = 2 ^ 31 - 1
signed_max i64 = 2 ^ 63 - 1

abbrev pub signed_min : SignedType → ℤ
signed_min type = negsuc (signed_max type)

abbrev pub unsigned_max : UnsignedType → ℕ
unsigned_max u8 = 2 ^ 8 - 1
unsigned_max u16 = 2 ^ 16 - 1
unsigned_max u32 = 2 ^ 32 - 1
unsigned_max u64 = 2 ^ 64 - 1

-- The pointer is an index of the buffer; `value` is what is stored through the out-parameter, `none`
-- where it is left as it was.
pub record FromCharsResult (V : Type 0) : Type 0 where
  pub ptr : ℕ
  pub error : Error
  pub value : Option V

-- The buffer as the call leaves it stands beside the result.
pub record ToCharsResult : Type 0 where
  pub ptr : ℕ
  pub error : Error
  pub buffer : List ℕ

pub record Ctype : Type 0 where
  pub isspace : ℕ → Bool
  pub isdigit : ℕ → Bool

-- `isdigit` accepts the ten decimal digits in every locale; a blank is no digit and no sign.
pub record IsCtype (ct : Ctype) : Type 0 where
  pub digits : (c : ℕ) → ct.isdigit c ≡ (leb b'0' c && leb c b'9')
  pub blanks : (c : ℕ) → ct.isspace c ≡ true → (ct.isdigit c ≡ false) × (c ≢ b'+') × (c ≢ b'-')

-- The characters of the range [first, last).
abbrev pub chars : ℕ → ℕ → List ℕ → List ℕ
chars first last buf = take (last - first) (drop first buf)
