-- ===== src/Charconv/Tests.antt =====
-- The theorems on the conversions at concrete inputs.
use rubidium_c.Prelude.{ℕ, ◌≡◌, refl, leb, ◌==◌, ◌&&◌, ◌||◌, List, [], ◌∷◌, arith, inr, replicate}
use rubidium_c.Prelude.Int.{negsuc}
use rubidium_c.Core.Error.{ok}
use rubidium_c.Charconv.Types.{Ctype, IsCtype, i8, u8, u64}
use rubidium_c.Charconv.FromChars.{parsed, invalid, out_of_range}
use rubidium_c.Charconv.FromChars.Text.{minus, plus}
use rubidium_c.Charconv.ToChars.{written, too_large}
use rubidium_c.Charconv.Generic.{
  signed, unsigned, from_chars, to_chars, from_chars-to_chars, from_chars_accepts,
  from_chars_overflows, from_chars_rejects, to_chars_writes, to_chars_refuses,
}

-- The "C" locale.
abbrev c_locale : Ctype
c_locale = record {
  isspace = λ c. c == b' ' || leb 9 c && leb c 13;
  isdigit = λ c. leb b'0' c && leb c b'9';
}

c_locale-IsCtype : IsCtype c_locale
c_locale-IsCtype = record {
  digits = λ c. refl;
  blanks = λ c blank. (ground arith, ground arith, ground arith);
}

-- " -128" and what follows it.
abbrev least_text : List ℕ
least_text = b' ' ∷ b'-' ∷ b'1' ∷ b'2' ∷ b'8' ∷ b'x' ∷ []

from_chars_accepts_example : from_chars c_locale (signed i8) 0 6 least_text ≡ parsed 5 (negsuc 127)
from_chars_accepts_example =
    from_chars_accepts c_locale c_locale-IsCtype (signed i8) 0 6 least_text (b' ' ∷ []) minus b'1'
      (b'2' ∷ b'8' ∷ []) (b'x' ∷ []) (omega arith) refl (refl, tt) tt
      ((omega arith, omega arith), ((omega arith, omega arith), ((omega arith, omega arith), tt)))
      refl (omega arith)

abbrev large_text : List ℕ
large_text = b'+' ∷ b'2' ∷ b'5' ∷ b'6' ∷ []

from_chars_overflows_example : from_chars c_locale (unsigned u8) 0 4 large_text ≡ out_of_range 3
from_chars_overflows_example =
    from_chars_overflows c_locale c_locale-IsCtype (unsigned u8) 0 4 large_text [] plus b'2'
      (b'5' ∷ []) b'6' [] (omega arith) refl tt refl
      ((omega arith, omega arith), ((omega arith, omega arith), tt)) (omega arith, omega arith)
      (omega arith) (omega arith)

from_chars_rejects_example : from_chars c_locale (unsigned u64) 0 2 (b'-' ∷ b'1' ∷ []) ≡ invalid 0
from_chars_rejects_example =
    from_chars_rejects c_locale c_locale-IsCtype (unsigned u64) 0 2 (b'-' ∷ b'1' ∷ []) [] minus
      (b'1' ∷ []) refl tt tt

-- The least value of 8 bits, behind one character and in front of another.
to_chars_writes_example :
    to_chars (signed i8) 1 5 (negsuc 127) (b'[' ∷ 0 ∷ 0 ∷ 0 ∷ 0 ∷ b']' ∷ [])
    ≡ written 5 (b'[' ∷ b'-' ∷ b'1' ∷ b'2' ∷ b'8' ∷ b']' ∷ [])
to_chars_writes_example =
    to_chars_writes (signed i8) (negsuc 127) 5 (b'[' ∷ []) (0 ∷ 0 ∷ 0 ∷ 0 ∷ []) (b']' ∷ [])
      (b'1' ∷ b'2' ∷ b'8' ∷ []) (omega arith, omega arith)
      (inr (
        (λ h. omega (arith, h)),
        (
          (omega arith, omega arith),
          ((omega arith, omega arith), ((omega arith, omega arith), tt)),
        ),
        refl,
      ))
      refl (omega arith)

to_chars_refuses_example :
    to_chars (signed i8) 0 3 (negsuc 127) (0 ∷ 0 ∷ 0 ∷ []) ≡ too_large 3 (b'-' ∷ 0 ∷ 0 ∷ [])
to_chars_refuses_example =
    to_chars_refuses (signed i8) (negsuc 127) 0 3 (0 ∷ 0 ∷ 0 ∷ []) (b'1' ∷ b'2' ∷ b'8' ∷ [])
      (omega arith, omega arith)
      (inr (
        (λ h. omega (arith, h)),
        (
          (omega arith, omega arith),
          ((omega arith, omega arith), ((omega arith, omega arith), tt)),
        ),
        refl,
      ))
      (omega arith) (omega arith)

abbrev room : List ℕ
room = replicate 20 0

-- The greatest value of 64 bits takes all the room.
from_chars-to_chars_example :
    let result = to_chars (unsigned u64) 0 20 18_446_744_073_709_551_615 room in
    (result.error ≡ ok)
    × (from_chars c_locale (unsigned u64) 0 result.ptr result.buffer
        ≡ parsed result.ptr 18_446_744_073_709_551_615)
from_chars-to_chars_example =
    from_chars-to_chars c_locale c_locale-IsCtype (unsigned u64) 18_446_744_073_709_551_615 [] room
      [] (omega arith) refl
