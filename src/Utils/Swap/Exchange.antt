-- ===== src/Utils/Swap/Exchange.antt =====
-- What the exchanges of src/rbc/utils/swap.h leave in the memory.
use mathlib.Core.List.{append_assoc}
use rubidium_c.Prelude.{
  ℕ, ◌+◌, ◌≡◌, refl, sym, ap, ◌∙◌, Bool, true, false, ◌==◌, Bool-cases, inl, inr, equal_of,
  if◌then◌else◌, some, List, [], ◌∷◌, ◌++◌, length, arith, length-append, get_elem?-append_length,
}
use rubidium_c.Utils.Swap.{swap_stored, swap_bytes, swap_byte, swap_impl}
use rubidium_c.Utils.Swap.Memory.{
  laid, far, read-middle, memcpy-middle, store-middle, far-same, read-far, read-sized, memcpy-far,
  get-far, store-far,
}

module _ (pre a mid b post : List ℕ) (same : length a ≡ length b) where
  stored-forward :
      swap_stored (laid pre a mid b post) (length pre) (far pre a mid) (length a)
      ≡ some (laid pre b mid a post)
  unfolding swap_stored
  stored-forward = rw (read-middle pre a (mid ++ (b ++ post))) (
      rw
        (
          same,
          read-far pre a mid b post,
          memcpy-middle pre a b (mid ++ (b ++ post)) same,
          far-same pre a b mid same,
          ← same,
        )
        (memcpy-far pre b mid b a post (sym same)))

  stored-backward :
      swap_stored (laid pre a mid b post) (far pre a mid) (length pre) (length a)
      ≡ some (laid pre b mid a post)
  unfolding swap_stored
  stored-backward = rw (read-middle pre a (mid ++ (b ++ post))) (
      rw
        (
          read-sized pre a mid b post (length a) (sym same),
          memcpy-far pre a mid b a post (sym same),
          same,
        )
        (memcpy-middle pre a b (mid ++ (a ++ post)) same))

-- A round of the loop: the first bytes of the two ranges are exchanged, and the rest of the ranges
-- lies one further.
round-laid :
    (pre : List ℕ) (y : ℕ) (a mid : List ℕ) (x : ℕ) (b post : List ℕ)
    → laid pre (y ∷ a) mid (x ∷ b) post ≡ laid (pre ++ y ∷ []) a (mid ++ x ∷ []) b post
round-laid pre y a mid x b post =
    sym (append_assoc pre (y ∷ []) (a ++ (mid ++ x ∷ (b ++ post))))
    ∙ ap (λ xs. (pre ++ y ∷ []) ++ (a ++ xs)) (sym (append_assoc mid (x ∷ []) (b ++ post)))

round-near : (pre : List ℕ) (y : ℕ) → length pre + 1 ≡ length (pre ++ y ∷ [])
round-near pre y = omega (arith, length-append pre (y ∷ []))

round-far :
    (pre : List ℕ) (c y : ℕ) (a mid : List ℕ) (x : ℕ)
    → far pre (c ∷ a) mid + 1 ≡ far (pre ++ y ∷ []) a (mid ++ x ∷ [])
round-far pre c y a mid x = omega (
  arith,
  length-append pre (c ∷ (a ++ mid)),
  length-append a mid,
  length-append (pre ++ y ∷ []) (a ++ (mid ++ x ∷ [])),
  length-append pre (y ∷ []),
  length-append a (mid ++ x ∷ []),
  length-append mid (x ∷ []),
)

byte-forward :
    (pre : List ℕ) (x : ℕ) (a mid : List ℕ) (y : ℕ) (b post : List ℕ)
    → swap_byte (laid pre (x ∷ a) mid (y ∷ b) post) (length pre) (far pre (x ∷ a) mid)
      ≡ some (laid pre (y ∷ a) mid (x ∷ b) post)
byte-forward pre x a mid y b post =
    rw
      (
        get_elem?-append_length pre x (a ++ (mid ++ y ∷ (b ++ post))),
        get-far pre (x ∷ a) mid y b post,
        store-middle pre x (a ++ (mid ++ y ∷ (b ++ post))) y,
        far-same pre (x ∷ a) (y ∷ a) mid refl,
      )
      (store-far pre (y ∷ a) mid y b post x)

byte-backward :
    (pre : List ℕ) (x : ℕ) (a mid : List ℕ) (y : ℕ) (b post : List ℕ)
    → swap_byte (laid pre (x ∷ a) mid (y ∷ b) post) (far pre (x ∷ a) mid) (length pre)
      ≡ some (laid pre (y ∷ a) mid (x ∷ b) post)
byte-backward pre x a mid y b post =
    rw
      (
        get-far pre (x ∷ a) mid y b post,
        get_elem?-append_length pre x (a ++ (mid ++ y ∷ (b ++ post))),
        store-far pre (x ∷ a) mid y b post x,
      )
      (store-middle pre x (a ++ (mid ++ x ∷ (b ++ post))) y)

bytes-forward :
    (pre a mid b post : List ℕ)
    → length a ≡ length b
    → swap_bytes (laid pre a mid b post) (length pre) (far pre a mid) (length a)
      ≡ some (laid pre b mid a post)
unfolding swap_bytes
bytes-forward pre [] mid [] post same = refl
bytes-forward pre [] mid (y ∷ b) post same = absurd (omega arith)
bytes-forward pre (x ∷ a) mid [] post same = absurd (omega arith)
bytes-forward pre (x ∷ a) mid (y ∷ b) post same = rw (byte-forward pre x a mid y b post) (
    rw
      (
        round-near pre y,
        round-far pre x y a mid x,
        round-laid pre y a mid x b post,
        round-laid pre y b mid x a post,
      )
      (bytes-forward (pre ++ y ∷ []) a (mid ++ x ∷ []) b post (omega arith)))

bytes-backward :
    (pre a mid b post : List ℕ)
    → length a ≡ length b
    → swap_bytes (laid pre a mid b post) (far pre a mid) (length pre) (length a)
      ≡ some (laid pre b mid a post)
unfolding swap_bytes
bytes-backward pre [] mid [] post same = refl
bytes-backward pre [] mid (y ∷ b) post same = absurd (omega arith)
bytes-backward pre (x ∷ a) mid [] post same = absurd (omega arith)
bytes-backward pre (x ∷ a) mid (y ∷ b) post same = rw (byte-backward pre x a mid y b post) (
    rw
      (
        round-near pre y,
        round-far pre x y a mid x,
        round-laid pre y a mid x b post,
        round-laid pre y b mid x a post,
      )
      (bytes-backward (pre ++ y ∷ []) a (mid ++ x ∷ []) b post (omega arith)))

module _ (pre a mid b post : List ℕ) (same : length a ≡ length b) where
  forward :
      (has_storage : Bool)
      → (if has_storage
          then swap_stored (laid pre a mid b post) (length pre) (far pre a mid) (length a)
          else swap_bytes (laid pre a mid b post) (length pre) (far pre a mid) (length a))
        ≡ some (laid pre b mid a post)
  forward true = stored-forward pre a mid b post same
  forward false = bytes-forward pre a mid b post same

  backward :
      (has_storage : Bool)
      → (if has_storage
          then swap_stored (laid pre a mid b post) (far pre a mid) (length pre) (length a)
          else swap_bytes (laid pre a mid b post) (far pre a mid) (length pre) (length a))
        ≡ some (laid pre b mid a post)
  backward true = stored-backward pre a mid b post same
  backward false = bytes-backward pre a mid b post same

-- Two ranges of one size that do not overlap: whether or not there is storage, and whichever of the
-- two comes first, the call exchanges their contents and changes nothing else.
pub swap_impl-laid :
    (has_storage : Bool) (pre a mid b post : List ℕ)
    → length a ≡ length b
    → (swap_impl has_storage (laid pre a mid b post) (length pre) (far pre a mid) (length a)
        ≡ some (laid pre b mid a post))
      × (swap_impl has_storage (laid pre a mid b post) (far pre a mid) (length pre) (length a)
          ≡ some (laid pre b mid a post))
unfolding swap_impl
swap_impl-laid has_storage pre a mid b post same = (
  elim (Bool-cases (length pre == far pre a mid)) [
    | inl at_once ↦
        rw (at_once) (
          ap some
            (unchanged (empty a b same (sym (equal_of (length pre) (far pre a mid) at_once)))))
    | inr apart ↦ rw (apart) (forward pre a mid b post same has_storage)
  ],
  elim (Bool-cases (far pre a mid == length pre)) [
    | inl at_once ↦
        rw (at_once)
          (ap some (unchanged (empty a b same (equal_of (far pre a mid) (length pre) at_once))))
    | inr apart ↦ rw (apart) (backward pre a mid b post same has_storage)
  ],
)
  where
    empty : (xs ys : List ℕ) → length xs ≡ length ys → far pre xs mid ≡ length pre → xs ≡ ys
    empty [] [] e h = refl
    empty [] (y ∷ ys) e h = absurd (omega arith)
    empty (x ∷ xs) ys e h =
        absurd (omega (arith, length-append pre (x ∷ (xs ++ mid)), length-append xs mid))

    unchanged : a ≡ b → laid pre a mid b post ≡ laid pre b mid a post
    unchanged e = rw (e) refl
