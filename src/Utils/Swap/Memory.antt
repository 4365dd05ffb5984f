-- ===== src/Utils/Swap/Memory.antt =====
-- Ranges of the memory of src/rbc/utils/swap.h, read and written.
use mathlib.Core.List.{append_assoc}
use mathlib.Core.Path.{subst}
use rubidium_c.Prelude.{
  ℕ, ◌+◌, ◌≡◌, refl, sym, ap, ◌∙◌, le→leb, lt→ltb, some, List, [], ◌∷◌, ◌++◌, length, take, drop,
  get_elem?, store, memcpy, arith, length-append, take-length-append, drop-length-append,
  get_elem?-append_length, set-append_length,
}
use rubidium_c.Utils.Swap.{read}

-- Reads and writes behind the start `pre`.
pub read-middle : (pre x post : List ℕ) → read (pre ++ (x ++ post)) (length pre) (length x) ≡ some x
read-middle pre x post =
    rw
      (
        le→leb (length pre + length x) (length (pre ++ (x ++ post)))
            (omega (arith, length-append pre (x ++ post), length-append x post)),
        drop-length-append pre (x ++ post),
        take-length-append x post,
      )
      refl

take-length : (xs : List ℕ) → take (length xs) xs ≡ xs
take-length [] = refl
take-length (x ∷ xs) = rw (take-length xs) refl

drop-behind :
    (pre old post : List ℕ) (n : ℕ)
    → length old ≡ n
    → drop (length pre + n) (pre ++ (old ++ post)) ≡ post
drop-behind pre old post n same =
    rw (← same, ← length-append pre old, ← append_assoc pre old post)
      (drop-length-append (pre ++ old) post)

pub memcpy-middle :
    (pre old new post : List ℕ)
    → length old ≡ length new
    → memcpy (pre ++ (old ++ post)) (length pre) new (length new) ≡ some (pre ++ (new ++ post))
memcpy-middle pre old new post same =
    rw
      (
        le→leb (length new) (length new) (omega arith),
        le→leb (length pre + length new) (length (pre ++ (old ++ post)))
            (omega (arith, same, length-append pre (old ++ post), length-append old post)),
        take-length-append pre (old ++ post),
        take-length new,
        drop-behind pre old post (length new) same,
      )
      refl

pub store-middle :
    (pre : List ℕ) (old : ℕ) (post : List ℕ) (new : ℕ)
    → store (pre ++ old ∷ post) (length pre) new ≡ some (pre ++ new ∷ post)
store-middle pre old post new =
    rw
      (
        lt→ltb (length pre) (length (pre ++ old ∷ post))
            (omega (arith, length-append pre (old ∷ post))),
        set-append_length pre old post new,
      )
      refl

-- Two ranges that do not overlap, `a` in front of `b`.
abbrev pub laid : List ℕ → List ℕ → List ℕ → List ℕ → List ℕ → List ℕ
laid pre a mid b post = pre ++ (a ++ (mid ++ (b ++ post)))

abbrev pub far : List ℕ → List ℕ → List ℕ → ℕ
far pre a mid = length (pre ++ (a ++ mid))

laid-far : (pre a mid b post : List ℕ) → laid pre a mid b post ≡ (pre ++ (a ++ mid)) ++ (b ++ post)
laid-far pre a mid b post =
    ap (λ xs. pre ++ xs) (sym (append_assoc a mid (b ++ post)))
    ∙ sym (append_assoc pre (a ++ mid) (b ++ post))

pub far-same : (pre a b mid : List ℕ) → length a ≡ length b → far pre a mid ≡ far pre b mid
far-same pre a b mid same = omega (
  arith,
  same,
  length-append pre (a ++ mid),
  length-append a mid,
  length-append pre (b ++ mid),
  length-append b mid,
)

pub read-far :
    (pre a mid b post : List ℕ) → read (laid pre a mid b post) (far pre a mid) (length b) ≡ some b
read-far pre a mid b post = rw (laid-far pre a mid b post) (read-middle (pre ++ (a ++ mid)) b post)

pub read-sized :
    (pre a mid b post : List ℕ) (n : ℕ)
    → length b ≡ n
    → read (laid pre a mid b post) (far pre a mid) n ≡ some b
read-sized pre a mid b post n same =
    subst (λ k. read (laid pre a mid b post) (far pre a mid) k ≡ some b) same
      (read-far pre a mid b post)

pub memcpy-far :
    (pre a mid b new post : List ℕ)
    → length b ≡ length new
    → memcpy (laid pre a mid b post) (far pre a mid) new (length new)
      ≡ some (laid pre a mid new post)
memcpy-far pre a mid b new post same =
    rw (laid-far pre a mid b post, laid-far pre a mid new post)
      (memcpy-middle (pre ++ (a ++ mid)) b new post same)

pub get-far :
    (pre a mid : List ℕ) (y : ℕ) (b post : List ℕ)
    → get_elem? (laid pre a mid (y ∷ b) post) (far pre a mid) ≡ some y
get-far pre a mid y b post =
    rw (laid-far pre a mid (y ∷ b) post) (get_elem?-append_length (pre ++ (a ++ mid)) y (b ++ post))

pub store-far :
    (pre a mid : List ℕ) (y : ℕ) (b post : List ℕ) (new : ℕ)
    → store (laid pre a mid (y ∷ b) post) (far pre a mid) new ≡ some (laid pre a mid (new ∷ b) post)
store-far pre a mid y b post new =
    rw (laid-far pre a mid (y ∷ b) post, laid-far pre a mid (new ∷ b) post)
      (store-middle (pre ++ (a ++ mid)) y (b ++ post) new)
