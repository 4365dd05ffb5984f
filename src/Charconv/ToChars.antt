-- ===== src/Charconv/ToChars.antt =====
-- The two macros of src/rbc/utils/charconv.c that define `rbc_to_chars_i8` to `rbc_to_chars_u64`.
-- The pointers are indices of the buffer. Once the sign is written the number is not negative and
-- stands as its magnitude. The loops run on fuel: a 64-bit number has 20 digits at most.
pub mod Digits
pub mod Buffer
pub mod Text
pub mod Signed
pub mod Unsigned
pub mod Short
use rubidium_c.Prelude.{
  ℕ, zero, suc, ◌+◌, ◌-◌, ◌/◌, ◌%◌, Bool, true, false, ltb, leb, ◌==◌, if◌then◌else◌, none, some,
  List, get_elem?, set,
}
use rubidium_c.Prelude.Int.{ℤ, pos, pos_part, ◌-ℤ◌, ltb_ℤ, ◌==ℤ◌, wrap}
use rubidium_c.Core.Error.{ok, invalid_argument, value_too_large}
use rubidium_c.Charconv.Types.{SignedType, UnsignedType, signed_max, signed_min, ToCharsResult}

abbrev pub max_len : ℕ
max_len = 20

-- A load through a pointer; 0 stands for what lies outside the buffer.
abbrev pub load : List ℕ → ℕ → ℕ
load buf i = elim (get_elem? buf i) [ none ↦ 0 | some c ↦ c ]

abbrev pub too_large : ℕ → List ℕ → ToCharsResult
too_large last buf = record { ptr = last; error = value_too_large; buffer = buf }

abbrev pub written : ℕ → List ℕ → ToCharsResult
written ptr buf = record { ptr = ptr; error = ok; buffer = buf }

-- for (type x = value; x; x /= 10) ++nb_digits;
pub count_digits : ℕ → ℕ → ℕ
count_digits zero x = 0
count_digits (suc fuel) x = let rest = count_digits fuel (x / 10) in if x == 0 then 0 else suc rest

-- while (value) { *ptr++ = '0' + (value % 10); value /= 10; }
pub write_digits : ℕ → ℕ → ℕ → List ℕ → ℕ × List ℕ
write_digits zero value ptr buf = (ptr, buf)
write_digits (suc fuel) value ptr buf =
    let rest = write_digits fuel (value / 10) (ptr + 1) (set buf ptr (b'0' + value % 10)) in
    if value == 0 then (ptr, buf) else rest

-- for (last = first + nb_digits - 1; first < last; ++first, --last) the two are swapped.
pub swap_ends : ℕ → ℕ → ℕ → List ℕ → List ℕ
swap_ends zero first last buf = buf
swap_ends (suc fuel) first last buf =
    let t = load buf first in
    let rest = swap_ends fuel (first + 1) (last - 1) (set (set buf first (load buf last)) last t) in
    if ltb first last then rest else buf

-- What the macros share behind the sign: the digits, last digit first, the least value's last digit
-- raised by one, then turned round.
pub write_number : Bool → ℕ → ℕ → ℕ → List ℕ → ToCharsResult
write_number is_min first last value buf =
    let nb_digits = count_digits max_len value in
    let (ptr, stored) = write_digits max_len value first buf in
    let raised = if is_min then set stored first (load stored first + 1) else stored in
    if ltb last (first + nb_digits)
    then too_large last buf
    else written ptr (swap_ends nb_digits first (first + nb_digits - 1) raised)

-- With `first == last` tested, as behind a sign.
pub to_chars_digits : Bool → ℕ → ℕ → ℕ → List ℕ → ToCharsResult
to_chars_digits is_min first last value buf =
    if first == last then too_large last buf else write_number is_min first last value buf

pub to_chars_signed : SignedType → ℕ → ℕ → ℤ → List ℕ → ToCharsResult
to_chars_signed type first last value buf =
    let is_min = value ==ℤ signed_min type in
    let magnitude =
      if is_min then pos (signed_max type) else wrap (suc (signed_max type)) (pos 0 -ℤ value) in
    if leb last first
    then record { ptr = first; error = invalid_argument; buffer = buf }
    else if value ==ℤ pos 0
    then written (first + 1) (set buf first b'0')
    else if ltb_ℤ value (pos 0)
    then to_chars_digits is_min (first + 1) last (pos_part magnitude) (set buf first b'-')
    else to_chars_digits is_min first last (pos_part value) buf

pub to_chars_unsigned : UnsignedType → ℕ → ℕ → ℕ → List ℕ → ToCharsResult
to_chars_unsigned type first last value buf =
    if leb last first
    then record { ptr = first; error = invalid_argument; buffer = buf }
    else if value == 0
    then written (first + 1) (set buf first b'0')
    else write_number false first last value buf
