-- ===== src/Charconv/FromChars.antt =====
-- The two macros of src/rbc/utils/charconv.c that define `rbc_from_chars_i8` to `rbc_from_chars_u64`.
-- `rest` is what is left of the range at the pointer `ptr`. The out-of-range branch of the signed
-- loop keeps the wrap of `x += d`: the least value is reached through it.
pub mod Text
pub mod Signed
pub mod Accepts
pub mod Unsigned
use rubidium_c.Prelude.{
  ℕ, suc, ◌+◌, ◌-◌, ◌*◌, ◌/◌, ◌%◌, Bool, true, false, not, ◌&&◌, ◌||◌, ltb, leb, ◌==◌,
  if◌then◌else◌, Option, none, some, List, [], ◌∷◌,
}
use rubidium_c.Prelude.Int.{ℤ, pos, negsuc, ◌+ℤ◌, ◌-ℤ◌, ◌*ℤ◌, ltb_ℤ, ◌==ℤ◌, wrap}
use rubidium_c.Core.Error.{Error, ok, invalid_argument, result_out_of_range}
use rubidium_c.Charconv.Types.{
  SignedType, UnsignedType, signed_max, signed_min, unsigned_max, FromCharsResult, Ctype, chars,
}

abbrev pub invalid : {V : Type 0} → ℕ → FromCharsResult V
invalid first = record { ptr = first; error = invalid_argument; value = none }

abbrev pub out_of_range : {V : Type 0} → ℕ → FromCharsResult V
out_of_range ptr = record { ptr = ptr; error = result_out_of_range; value = none }

abbrev pub parsed : {V : Type 0} → ℕ → V → FromCharsResult V
parsed ptr v = record { ptr = ptr; error = ok; value = some v }

module _ (ct : Ctype) where
  -- while (first != last && isspace(*first)) ++first;
  pub skip_spaces : List ℕ → ℕ → List ℕ × ℕ
  skip_spaces [] ptr = ([], ptr)
  skip_spaces (c ∷ rest) ptr = if ct.isspace c then skip_spaces rest (ptr + 1) else (c ∷ rest, ptr)

  module _ (type : SignedType) (is_negative : Bool) where
    -- What follows the loop.
    pub signed_finish : ℕ → ℤ → Bool → FromCharsResult ℤ
    signed_finish ptr x is_min = parsed ptr (
        if is_negative
        then if is_min then signed_min type else wrap (suc (signed_max type)) (pos 0 -ℤ x)
        else x)

    -- The loop over the digits behind the first.
    pub signed_loop : List ℕ → ℕ → ℤ → Bool → FromCharsResult ℤ
    signed_loop [] ptr x is_min = signed_finish ptr x is_min
    signed_loop (c ∷ rest) ptr x is_min =
        let x10 = wrap (suc (signed_max type)) (x *ℤ 10) in
        let d = c - b'0' in
        let is_min' = (pos 0 -ℤ x10) ==ℤ (signed_min type +ℤ pos d) in
        let x' = wrap (suc (signed_max type)) (x10 +ℤ pos d) in
        if ct.isdigit c
        then (if is_min || ltb_ℤ (pos (signed_max type / 10)) x
            then out_of_range ptr
            else if not is_negative && ltb_ℤ (pos (signed_max type) -ℤ pos d) x10
                || is_negative && ltb_ℤ (pos 0 -ℤ x10) (signed_min type +ℤ pos d)
            then out_of_range ptr
            else signed_loop rest (ptr + 1) x' is_min')
        else signed_finish ptr x is_min

    -- The first digit, on which the loop starts.
    pub signed_digits : ℕ → List ℕ → ℕ → FromCharsResult ℤ
    signed_digits first [] ptr = invalid first
    signed_digits first (c ∷ rest) ptr =
        if ct.isdigit c then signed_loop rest (ptr + 1) (pos (c - b'0')) false else invalid first

  -- The sign behind the blanks.
  pub signed_sign : SignedType → ℕ → List ℕ × ℕ → FromCharsResult ℤ
  signed_sign type first ([], ptr) = invalid first
  signed_sign type first (c ∷ rest, ptr) =
      if c == b'+' || c == b'-'
      then signed_digits type (c == b'-') first rest (ptr + 1)
      else signed_digits type false first (c ∷ rest) ptr

  pub from_chars_signed : SignedType → ℕ → ℕ → List ℕ → FromCharsResult ℤ
  from_chars_signed type first last buf =
      if leb last first
      then invalid first
      else signed_sign type first (skip_spaces (chars first last buf) first)

  module _ (type : UnsignedType) where
    pub unsigned_loop : List ℕ → ℕ → ℕ → FromCharsResult ℕ
    unsigned_loop [] ptr x = parsed ptr x
    unsigned_loop (c ∷ rest) ptr x =
        let x10 = x * 10 % suc (unsigned_max type) in
        let d = c - b'0' in
        if ct.isdigit c
        then (if ltb (unsigned_max type / 10) x
            then out_of_range ptr
            else if ltb (unsigned_max type - d) x10
            then out_of_range ptr
            else unsigned_loop rest (ptr + 1) ((x10 + d) % suc (unsigned_max type)))
        else parsed ptr x

    pub unsigned_digits : ℕ → List ℕ → ℕ → FromCharsResult ℕ
    unsigned_digits first [] ptr = invalid first
    unsigned_digits first (c ∷ rest) ptr =
        if ct.isdigit c then unsigned_loop rest (ptr + 1) (c - b'0') else invalid first

    pub unsigned_sign : ℕ → List ℕ × ℕ → FromCharsResult ℕ
    unsigned_sign first ([], ptr) = invalid first
    unsigned_sign first (c ∷ rest, ptr) =
        if c == b'-'
        then invalid first
        else if c == b'+'
        then unsigned_digits first rest (ptr + 1)
        else unsigned_digits first (c ∷ rest) ptr

    pub from_chars_unsigned : ℕ → ℕ → List ℕ → FromCharsResult ℕ
    from_chars_unsigned first last buf =
        if leb last first
        then invalid first
        else unsigned_sign first (skip_spaces (chars first last buf) first)
