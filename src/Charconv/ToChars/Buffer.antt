-- ===== src/Charconv/ToChars/Buffer.antt =====
-- What the loops of the macros of src/rbc/utils/charconv.c leave in the buffer.
use mathlib.Core.List.{reverse, reverse-cons, reverse-append, append_assoc}
use mathlib.Core.Path.{subst}
use rubidium_c.Prelude.{
  ℕ, zero, suc, ◌+◌, ◌-◌, ◌/◌, ◌%◌, ◌≤◌, ◌≡◌, refl, sym, ap, true, ltb, ◌==◌, List, [], ◌∷◌, ◌++◌,
  length, length-append, set, set-append_length, get_elem?-append_length, arith, inl, inr,
  Bool-cases, lt→ltb, ◌∙◌,
}
use rubidium_c.Charconv.ToChars.{load, count_digits, write_digits, swap_ends}
use rubidium_c.Charconv.ToChars.Digits.{lows, snoc}
use rubidium_c.Charconv.FromChars.Text.{add_zero, add_suc}

pub count_digits-eq : (fuel n : ℕ) → count_digits fuel n ≡ length (lows fuel n)
unfolding count_digits lows
count_digits-eq zero n = refl
count_digits-eq (suc fuel) n = elim (Bool-cases (n == 0)) [
  | inl none ↦ rw none refl
  | inr some ↦ rw some (ap suc (count_digits-eq fuel (n / 10)))
]

pub move : (pre : List ℕ) (x : ℕ) (xs : List ℕ) → pre ++ x ∷ xs ≡ (pre ++ x ∷ []) ++ xs
move pre x xs = sym (append_assoc pre (x ∷ []) xs)

pub length-end : (pre : List ℕ) (x : ℕ) → length (pre ++ x ∷ []) ≡ length pre + 1
length-end pre x = length-append pre (x ∷ [])

-- The digits take the place of as many characters.
pub write_digits-eq :
    (fuel n : ℕ) (pre old post : List ℕ)
    → length old ≡ length (lows fuel n)
    → write_digits fuel n (length pre) (pre ++ (old ++ post))
      ≡ (length pre + length old, pre ++ (lows fuel n ++ post))
unfolding write_digits lows
write_digits-eq zero n pre [] post same = rw (add_zero (length pre)) refl
write_digits-eq zero n pre (o ∷ old) post same = ground (arith, same)
write_digits-eq (suc fuel) n pre [] post same = elim (Bool-cases (n == 0)) [
  | inl none ↦ rw (none, add_zero (length pre)) refl
  | inr some ↦ ground (arith, same)
]
write_digits-eq (suc fuel) n pre (o ∷ old) post same = elim (Bool-cases (n == 0)) [
  | inl none ↦ ground (arith, same)
  | inr some ↦
      rw
        (
          some,
          set-append_length pre o (old ++ post) (b'0' + n % 10),
          move pre (b'0' + n % 10) (old ++ post),
          sym (length-end pre (b'0' + n % 10)),
          write_digits-eq fuel (n / 10) (pre ++ (b'0' + n % 10) ∷ []) old post
              (ground (arith, same)),
        )
        (rw
          (
            length-end pre (b'0' + n % 10),
            sym (move pre (b'0' + n % 10) (lows fuel (n / 10) ++ post)),
            add_suc (length pre) (length old),
          )
          refl)
]

pub load-append_length :
    (pre : List ℕ) (x : ℕ) (xs : List ℕ) → load (pre ++ x ∷ xs) (length pre) ≡ x
load-append_length pre x xs = rw (load, get_elem?-append_length pre x xs) refl

module _ (pre : List ℕ) (a : ℕ) (ys : List ℕ) (b : ℕ) (post : List ℕ) where
  regroup : (x y : ℕ) → pre ++ (x ∷ ((ys ++ y ∷ []) ++ post)) ≡ (pre ++ x ∷ ys) ++ y ∷ post
  regroup x y =
      ap (λ zs. pre ++ x ∷ zs) (append_assoc ys (y ∷ []) post)
      ∙ sym (append_assoc pre (x ∷ ys) (y ∷ post))

  last-eq : (x : ℕ) → length pre + length (a ∷ (ys ++ b ∷ [])) - 1 ≡ length (pre ++ x ∷ ys)
  last-eq x = omega (arith, length-append ys (b ∷ []), length-append pre (x ∷ ys))

  abbrev last : ℕ
  last = length pre + length (a ∷ (ys ++ b ∷ [])) - 1

  abbrev buf : ℕ → List ℕ
  buf x = pre ++ ((x ∷ (ys ++ b ∷ [])) ++ post)

  load-last : load (buf a) last ≡ b
  load-last = rw (last-eq a, regroup a b) (load-append_length (pre ++ a ∷ ys) b post)

  set-first : set (buf a) (length pre) b ≡ buf b
  set-first = set-append_length pre a ((ys ++ b ∷ []) ++ post) b

  set-last : set (buf b) last a ≡ (pre ++ b ∷ []) ++ (ys ++ a ∷ post)
  set-last =
      rw (last-eq b, regroup b b) (set-append_length (pre ++ b ∷ ys) b post a)
      ∙ append_assoc pre (b ∷ ys) (a ∷ post)
      ∙ move pre b (ys ++ a ∷ post)

  swapped :
      set (set (buf a) (length pre) (load (buf a) last)) last (load (buf a) (length pre))
      ≡ (pre ++ b ∷ []) ++ (ys ++ a ∷ post)
  swapped = rw (load-last, load-append_length pre a ((ys ++ b ∷ []) ++ post), set-first) set-last

  one_in : last - 1 ≡ length (pre ++ b ∷ []) + length ys - 1
  one_in = omega (arith, length-append ys (b ∷ []), length-append pre (b ∷ []))

  inside : ltb (length pre) last ≡ true
  inside = lt→ltb (length pre) last (omega (arith, length-append ys (b ∷ [])))

  reversed :
      (pre ++ b ∷ []) ++ (reverse ys ++ a ∷ post) ≡ pre ++ (reverse (a ∷ (ys ++ b ∷ [])) ++ post)
  reversed =
      rw
        (
          reverse-cons a (ys ++ b ∷ []),
          reverse-append ys (b ∷ []),
          append_assoc (reverse ys) (a ∷ []) post,
        )
        (sym (move pre b (reverse ys ++ a ∷ post)))

  swap_step :
      (fuel : ℕ)
      → swap_ends fuel
          (length (pre ++ b ∷ []))
          (length (pre ++ b ∷ []) + length ys - 1)
          ((pre ++ b ∷ []) ++ (ys ++ a ∷ post))
        ≡ (pre ++ b ∷ []) ++ (reverse ys ++ a ∷ post)
      → swap_ends (suc fuel) (length pre) last (buf a)
        ≡ pre ++ (reverse (a ∷ (ys ++ b ∷ [])) ++ post)
  unfolding swap_ends
  swap_step fuel rest = rw (inside, swapped, one_in, sym (length-end pre b), rest) reversed

-- The characters between the two ends are turned round.
pub swap_ends-eq :
    (fuel : ℕ) (pre xs post : List ℕ)
    → length xs ≤ fuel
    → swap_ends fuel (length pre) (length pre + length xs - 1) (pre ++ (xs ++ post))
      ≡ pre ++ (reverse xs ++ post)
unfolding swap_ends
swap_ends-eq zero pre [] post enough = refl
swap_ends-eq zero pre (a ∷ xs) post enough = absurd (omega arith)
swap_ends-eq (suc fuel) pre [] post enough = ground arith
swap_ends-eq (suc fuel) pre (a ∷ []) post enough = ground arith
swap_ends-eq (suc fuel) pre (a ∷ b ∷ xs) post enough =
    let (ys, z, ends) = snoc b xs in
    subst
      (λ zs.
        swap_ends (suc fuel) (length pre) (length pre + length (a ∷ zs) - 1)
          (pre ++ ((a ∷ zs) ++ post))
        ≡ pre ++ (reverse (a ∷ zs) ++ post))
      (sym ends)
      (swap_step pre a ys z post fuel (
        swap_ends-eq fuel (pre ++ z ∷ []) ys (a ∷ post)
          (omega (arith, ap length ends, length-append ys (z ∷ [])))))
