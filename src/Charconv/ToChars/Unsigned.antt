-- ===== src/Charconv/ToChars/Unsigned.antt =====
-- The unsigned conversions to text of src/rbc/utils/charconv.c.
use rubidium_c.Prelude.{
  ℕ, ◌+◌, ◌≤◌, ◌<◌, ◌≡◌, refl, ap, false, List, [], ◌∷◌, ◌++◌, length, set-append_length, arith,
  inl, inr, ◌∙◌,
}
use rubidium_c.Charconv.Types.{UnsignedType, u8, u16, u32, u64, unsigned_max}
use rubidium_c.Charconv.ToChars.{max_len, written, too_large, write_number, to_chars_unsigned}
use rubidium_c.Charconv.ToChars.Digits.{limit, positive, IsDecimal, IsNumeral}
use rubidium_c.Charconv.ToChars.Text.{write_decimal, write_short}
use rubidium_c.Charconv.FromChars.Text.{not_below}

pub unsigned_max-limit : (type : UnsignedType) → unsigned_max type < limit max_len
unsigned_max-limit u8 = omega arith
unsigned_max-limit u16 = omega arith
unsigned_max-limit u32 = omega arith
unsigned_max-limit u64 = omega arith

-- Which way the code goes.
unsigned-positive :
    (type : UnsignedType) (n first last : ℕ) (buf : List ℕ)
    → 0 < n
    → first < last
    → to_chars_unsigned type first last n buf ≡ write_number false first last n buf
unfolding to_chars_unsigned
unsigned-positive type n first last buf large room = ground (arith, large)

zero_written :
    (type : UnsignedType) (last : ℕ) (pre old post : List ℕ)
    → length old ≡ 1
    → length pre + length old ≤ last
    → to_chars_unsigned type (length pre) last 0 (pre ++ (old ++ post))
      ≡ written (length pre + length old) (pre ++ b'0' ∷ post)
unfolding to_chars_unsigned
zero_written type last pre [] post same room = ground (arith, same)
zero_written type last pre (o ∷ []) post same room =
    rw (not_below (length pre) last (omega arith), set-append_length pre o post b'0') refl
zero_written type last pre (o ∷ o' ∷ old) post same room = absurd (omega (arith, same))

length-positive : (n : ℕ) (ds : List ℕ) → IsDecimal n ds → 0 < length ds
length-positive n [] h = elim h [ ]
length-positive n (c ∷ ds) h = omega arith

-- For every unsigned type and every value of it: where the range starts behind `pre` and has room
-- for the decimal text of the value, the conversion writes that text at the start of the range,
-- changes nothing else of the buffer, reports no error and points behind the text.
pub to_chars_unsigned_writes :
    (type : UnsignedType) (n last : ℕ) (pre old post ds : List ℕ)
    → n ≤ unsigned_max type
    → IsNumeral n ds
    → length old ≡ length ds
    → length pre + length old ≤ last
    → to_chars_unsigned type (length pre) last n (pre ++ (old ++ post))
      ≡ written (length pre + length old) (pre ++ (ds ++ post))
to_chars_unsigned_writes type n last pre old post ds range (inl (zero_n, text)) same room =
    rw (zero_n, text) (zero_written type last pre old post (same ∙ ap length text) room)
to_chars_unsigned_writes type n last pre old post ds range (inr decimal) same room =
    unsigned-positive type n (length pre) last (pre ++ (old ++ post)) (positive n ds decimal)
      (omega (arith, same, length-positive n ds decimal))
    ∙ write_decimal n last pre old post ds (omega (arith, unsigned_max-limit type)) decimal same
        room

-- For every unsigned type: where a range that is not empty is shorter than the decimal text of the
-- value, the conversion reports that the value is too large, points at the end of the range and
-- leaves the buffer as it was.
pub to_chars_unsigned_refuses :
    (type : UnsignedType) (n first last : ℕ) (buf ds : List ℕ)
    → n ≤ unsigned_max type
    → IsNumeral n ds
    → first < last
    → last < first + length ds
    → to_chars_unsigned type first last n buf ≡ too_large last buf
to_chars_unsigned_refuses type n first last buf ds range (inl (zero_n, text)) room short =
    absurd (omega (arith, ap length text))
to_chars_unsigned_refuses type n first last buf ds range (inr decimal) room short =
    unsigned-positive type n first last buf (positive n ds decimal) room
    ∙ write_short false n first last buf ds (omega (arith, unsigned_max-limit type)) decimal short
