-- ===== src/Core/Error/Message/Buffer.antt =====
-- What `rbc_error_to_string_s` of src/rbc/core/error.c leaves in the buffer.
use mathlib.Core.List.{append_assoc}
use mathlib.Core.Path.{subst}
use rubidium_c.Prelude.{
  not_zero, not_leb, le→leb, ℕ, zero, suc, ◌+◌, ◌-◌, ◌<◌, ◌≤◌, ◌≡◌, refl, sym, ap, ◌∙◌, Bool, true,
  false, ◌==◌, if◌then◌else◌, inl, inr, le_or_lt, lt→ltb, not_ltb, some, Option, List, [], ◌∷◌,
  ◌++◌, length, take, drop, set, store, memcpy, length-append, length-take, set-append_length,
  arith,
}
use rubidium_c.Core.Error.Message.{copy_text, append_dots}

abbrev pub dots : List ℕ
dots = b'.' ∷ b'.' ∷ b'.' ∷ []

-- How a call ends, with the result and the buffer. Where the text is cut, the comment at
-- `rbc_error_to_string_s` in src/rbc/core/error.h has `false` for the result (line 121 of the header),
-- and where nothing is stored it has the buffer terminated by a null byte (line 115): the code does
-- neither.
pub data Outcome (buf : List ℕ) (size : ℕ) (desc : List ℕ)
    : Option (Bool × Option (List ℕ)) → Type 0 where
  whole :
      length desc < size
      → Outcome buf size desc (some (true, some (desc ++ 0 ∷ drop (length desc + 1) buf)))
  cut :
      3 < size
      → size ≤ length desc
      → Outcome buf size desc
          (some (true, some ((take (size - 4) desc ++ dots) ++ 0 ∷ drop size buf)))
  untouched : size ≤ 3 → size ≤ length desc → Outcome buf size desc (some (false, some buf))

if_same : (b : Bool) (o : Option (Bool × Option (List ℕ))) → (if b then o else o) ≡ o
if_same true o = refl
if_same false o = refl

take_all : (xs : List ℕ) → take (length xs) xs ≡ xs
take_all [] = refl
take_all (x ∷ xs) = ap (λ ys. x ∷ ys) (take_all xs)

minus_add : (n : ℕ) → 3 < n → n - 4 + 4 ≡ n
minus_add n enough = omega arith

drop_step : (n : ℕ) (xs : List ℕ) → n < length xs → (x : ℕ) × (drop n xs ≡ x ∷ drop (suc n) xs)
drop_step n [] h = absurd (omega arith)
drop_step zero (x ∷ xs) h = (x, refl)
drop_step (suc n) (x ∷ xs) h = drop_step n xs (omega arith)

-- A store right behind what is written.
store_next :
    (done buf : List ℕ) (v n m : ℕ)
    → length done ≡ n
    → suc n ≡ m
    → n < length buf
    → store (done ++ drop n buf) n v ≡ some ((done ++ v ∷ []) ++ drop m buf)
store_next done buf v n m same next inside =
    let (x, step) = drop_step n buf inside in
    rw
      (
        step,
        lt→ltb n (length (done ++ x ∷ drop (suc n) buf))
            (omega (arith, same, length-append done (x ∷ drop (suc n) buf))),
      )
      (ap some (
        subst (λ m. set (done ++ x ∷ drop (suc n) buf) m v ≡ done ++ v ∷ drop (suc n) buf) same
          (set-append_length done x (drop (suc n) buf) v)
        ∙ sym (append_assoc done (v ∷ []) (drop (suc n) buf))
        ∙ ap (λ j. (done ++ v ∷ []) ++ drop j buf) next))

memcpy_start :
    (buf desc : List ℕ) (n : ℕ)
    → n ≤ length desc
    → n ≤ length buf
    → memcpy buf 0 desc n ≡ some (take n desc ++ drop n buf)
memcpy_start buf desc n within room =
    rw (le→leb n (length desc) within, le→leb (0 + n) (length buf) (omega arith))
      (ap (λ m. some (take n desc ++ drop m buf)) (omega arith))

dotted : (text : List ℕ) → ((text ++ b'.' ∷ []) ++ b'.' ∷ []) ++ b'.' ∷ [] ≡ text ++ dots
dotted text =
    append_assoc (text ++ b'.' ∷ []) (b'.' ∷ []) (b'.' ∷ [])
    ∙ append_assoc text (b'.' ∷ []) (b'.' ∷ b'.' ∷ [])

append_dots_lem :
    (buf text : List ℕ) (k : ℕ)
    → length text ≡ k
    → k + 3 < length buf
    → append_dots (text ++ drop k buf) k
      ≡ some (true, some ((text ++ dots) ++ 0 ∷ drop (k + 4) buf))
unfolding append_dots
append_dots_lem buf text k same room =
    rw
      (
        store_next text buf b'.' k (k + 1) same (omega arith) (omega arith),
        store_next (text ++ b'.' ∷ []) buf b'.' (k + 1) (k + 2)
            (omega (arith, same, length-append text (b'.' ∷ []))) (omega arith) (omega arith),
        store_next ((text ++ b'.' ∷ []) ++ b'.' ∷ []) buf b'.' (k + 2) (k + 3)
            (omega (
              arith,
              same,
              length-append text (b'.' ∷ []),
              length-append (text ++ b'.' ∷ []) (b'.' ∷ []),
            ))
            (omega arith) (omega arith),
        store_next (((text ++ b'.' ∷ []) ++ b'.' ∷ []) ++ b'.' ∷ []) buf 0 (k + 3) (k + 4)
            (ap length (dotted text) ∙ omega (arith, same, length-append text dots)) (omega arith)
            (omega arith),
      )
      (ap (λ t. some (true, some ((t ++ 0 ∷ []) ++ drop (k + 4) buf))) (dotted text)
        ∙ ap (λ t. some (true, some t)) (append_assoc (text ++ dots) (0 ∷ []) (drop (k + 4) buf)))

-- No byte is written outside a buffer of the given size, and a call ends in one of three ways. Where
-- the text and its null byte fit, they are stored and `true` is returned. Where they do not and the size
-- is above three, the start of the text, three dots and a null byte fill the buffer, and `true` is
-- returned for the cut text as well, though error.h says `false`. Where they do not and the size is at
-- most three, the buffer stays as it is, with no null byte put in, though error.h says that there always
-- is one, and `false` is returned. All bytes behind the null byte are kept.
pub copy_text_lem :
    (buf : List ℕ) (size : ℕ) (desc : List ℕ)
    → size ≤ length buf
    → Outcome buf size desc (copy_text (some buf) size desc)
unfolding copy_text
copy_text_lem buf size desc inside = elim (le_or_lt size (length desc)) [
  | inl long ↦ elim (le_or_lt size 3) [
    | inl small ↦
        rw
          (
            le→leb size 3 small,
            not_ltb (length desc) size long,
            if_same (size == 0) (some (false, some buf)),
          )
          (untouched small long)
    | inr enough ↦
        rw
          (
            not_zero size (omega arith),
            not_ltb (length desc) size long,
            not_leb size 3 enough,
            memcpy_start buf desc (size - 4) (omega arith) (omega arith),
            append_dots_lem buf (take (size - 4) desc) (size - 4)
                (omega (arith, length-take (size - 4) desc)) (omega arith),
            minus_add size enough,
          )
          (cut enough long)
  ]
  | inr fits ↦
      rw
        (
          not_zero size (omega arith),
          lt→ltb (length desc) size fits,
          memcpy_start buf desc (length desc) (omega arith) (omega arith),
          take_all desc,
          store_next desc buf 0 (length desc) (length desc + 1) refl (omega arith) (omega arith),
          append_assoc desc (0 ∷ []) (drop (length desc + 1) buf),
        )
        (whole fits)
]
