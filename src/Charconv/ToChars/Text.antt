-- ===== src/Charconv/ToChars/Text.antt =====
-- The text that the conversions of src/rbc/utils/charconv.c write, and the room it takes.
use mathlib.Core.List.{reverse, reverse-cons}
use mathlib.Core.Path.{subst}
use rubidium_c.Prelude.{
  ℕ, suc, ◌+◌, ◌*◌, ◌/◌, ◌≤◌, ◌<◌, ◌≡◌, refl, sym, ap, Bool, true, false, ltb, if◌then◌else◌, List,
  [], ◌∷◌, ◌++◌, length, length-append, set, set-append_length, arith, lt→ltb, ◌∙◌,
}
use rubidium_c.Charconv.Types.{SignedType, i8, i16, i32, i64, signed_max}
use rubidium_c.Charconv.ToChars.{max_len, load, count_digits, written, too_large, write_number}
use rubidium_c.Charconv.ToChars.Digits.{
  lows, limit, IsDecimal, IsDecimal-unique, IsDecimal-last, lows-suc,
}
use rubidium_c.Charconv.ToChars.Buffer.{
  count_digits-eq, write_digits-eq, swap_ends-eq, load-append_length,
}
use rubidium_c.Charconv.FromChars.Text.{signed_max_mod}

pub length-reverse : (xs : List ℕ) → length (reverse xs) ≡ length xs
length-reverse [] = refl
length-reverse (x ∷ xs) =
    rw (reverse-cons x xs, length-append (reverse xs) (x ∷ []), length-reverse xs) (omega arith)

room_left : (first len last : ℕ) → first + len ≤ last → ltb last (first + len) ≡ false
room_left first len last room = ground arith

-- `ys` is what the branch on the least value makes of the digits; the number is written as their
-- reverse, in the place of as many characters.
write_number_lem :
    (is_min : Bool) (n last : ℕ) (pre old ys post : List ℕ)
    → length old ≡ length (lows max_len n)
    → length ys ≡ length (lows max_len n)
    → (let stored = pre ++ (lows max_len n ++ post) in
        if is_min then set stored (length pre) (load stored (length pre) + 1) else stored)
      ≡ pre ++ (ys ++ post)
    → length pre + length old ≤ last
    → write_number is_min (length pre) last n (pre ++ (old ++ post))
      ≡ written (length pre + length old) (pre ++ (reverse ys ++ post))
unfolding write_number
write_number_lem is_min n last pre old ys post same kept raised room =
    rw (write_digits-eq max_len n pre old post same, count_digits-eq max_len n, sym same)
      (rw (room_left (length pre) (length old) last room, raised, same ∙ sym kept)
        (ap (written (length pre + length ys))
          (swap_ends-eq (length ys) pre ys post (omega arith))))

-- A positive number that is not the least of its type.
pub write_decimal :
    (n last : ℕ) (pre old post ds : List ℕ)
    → n < limit max_len
    → IsDecimal n ds
    → length old ≡ length ds
    → length pre + length old ≤ last
    → write_number false (length pre) last n (pre ++ (old ++ post))
      ≡ written (length pre + length old) (pre ++ (ds ++ post))
write_decimal n last pre old post ds fits decimal same room =
    rw (unique)
      (write_number_lem false n last pre old (lows max_len n) post same_lows refl refl room)
  where
    unique : ds ≡ reverse (lows max_len n)
    unique = IsDecimal-unique max_len n ds fits decimal

    same_lows : length old ≡ length (lows max_len n)
    same_lows = same ∙ ap length unique ∙ length-reverse (lows max_len n)

pub signed_max-limit : (type : SignedType) → suc (signed_max type) < limit 19
signed_max-limit i8 = omega arith
signed_max-limit i16 = omega arith
signed_max-limit i32 = omega arith
signed_max-limit i64 = omega arith

-- The least value of a signed type: the digits are those of the greatest, the last raised by one.
pub write_least :
    (type : SignedType) (last : ℕ) (pre old post ds : List ℕ)
    → IsDecimal (suc (signed_max type)) ds
    → length old ≡ length ds
    → length pre + length old ≤ last
    → write_number true (length pre) last (signed_max type) (pre ++ (old ++ post))
      ≡ written (length pre + length old) (pre ++ (ds ++ post))
write_least type last pre old post ds decimal same room =
    rw unique
      (write_number_lem true (signed_max type) last pre old ys post same_lows kept raised room)
  where
    rest : List ℕ
    rest = lows 19 (signed_max type / 10)

    ys : List ℕ
    ys = (b'0' + 8) ∷ rest

    max_fits : suc (signed_max type) < limit max_len
    max_fits = omega (arith, signed_max-limit type)

    least_last : signed_max type / 10 * 10 + 8 ≡ suc (signed_max type)
    least_last = omega (arith, signed_max_mod type)

    unique : ds ≡ reverse ys
    unique =
        IsDecimal-unique max_len (suc (signed_max type)) ds max_fits decimal
        ∙ sym (
            IsDecimal-unique max_len (suc (signed_max type)) (reverse ys) max_fits (
              subst (λ n. IsDecimal n (reverse ys)) least_last
                (IsDecimal-last 19 (signed_max type / 10) 8 (omega (arith, signed_max-limit type))
                  (omega arith) (omega arith))))

    max_lows : lows max_len (signed_max type) ≡ (b'0' + 7) ∷ rest
    max_lows =
        lows-suc 19 (signed_max type) (omega (arith, signed_max_mod type))
        ∙ ap (λ d. (b'0' + d) ∷ rest) (signed_max_mod type)

    kept : length ys ≡ length (lows max_len (signed_max type))
    kept = rw max_lows refl

    same_lows : length old ≡ length (lows max_len (signed_max type))
    same_lows = same ∙ ap length unique ∙ length-reverse ys ∙ kept

    raised :
        set
          (pre ++ (lows max_len (signed_max type) ++ post))
          (length pre)
          (load (pre ++ (lows max_len (signed_max type) ++ post)) (length pre) + 1)
        ≡ pre ++ (ys ++ post)
    raised =
        rw (max_lows, load-append_length pre (b'0' + 7) (rest ++ post))
          (set-append_length pre (b'0' + 7) (rest ++ post) (b'0' + 8))

pub count_digits-length :
    (n : ℕ) (ds : List ℕ) → n < limit max_len → IsDecimal n ds → count_digits max_len n ≡ length ds
count_digits-length n ds fits decimal =
    count_digits-eq max_len n
    ∙ sym (ap length (IsDecimal-unique max_len n ds fits decimal) ∙ length-reverse (lows max_len n))

-- The room is counted before anything is stored.
pub write_short :
    (is_min : Bool) (n first last : ℕ) (buf ds : List ℕ)
    → n < limit max_len
    → IsDecimal n ds
    → last < first + length ds
    → write_number is_min first last n buf ≡ too_large last buf
unfolding write_number
write_short is_min n first last buf ds fits decimal short =
    rw (count_digits-length n ds fits decimal, lt→ltb last (first + length ds) short) refl
