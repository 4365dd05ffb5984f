-- ===== src/Sync/Impl/Laws.antt =====
-- What the macros of src/rbc/sync/impl.h do to the blocks.
use mathlib.Core.Bool.{true≢false}
use rubidium_c.Prelude.{
  ==_self, equal_of, ℕ, ◌+◌, ◌<◌, ◌≤◌, ◌≡◌, ◌≢◌, inl, inr, refl, sym, ap, ◌∙◌, Bool, true, false,
  ◌==◌, Bool-cases, none, some, arith,
}
use rubidium_c.Prelude.Int.{ℤ, pos, ◌==ℤ◌}
use rubidium_c.Core.Error.{Error, not_enough_memory}
use rubidium_c.Sync.World.{Call, World, Run, mark, free, call, malloc}
use rubidium_c.Sync.Impl.{Handle, sync_init, sync_check_init, sync_destroy}

==_apart : (a b : ℕ) → b < a → (a == b) ≡ false
==_apart a b h = ground arith

pub mark_self : (live : ℕ → Bool) (a : ℕ) (b : Bool) → mark live a b a ≡ b
mark_self live a b = rw (==_self a) refl

-- A block that is given and taken back.
pub mark_undone :
    (live : ℕ → Bool) (a c : ℕ) → live a ≡ false → live c ≡ mark (mark live a true) a false c
mark_undone live a c unused = elim (Bool-cases (c == a)) [
  | inl same ↦ rw (same) (ap live (equal_of c a same) ∙ unused)
  | inr apart ↦ rw (apart) refl
]

mark_above :
    (live : ℕ → Bool) (n a : ℕ)
    → ((c : ℕ) → n ≤ c → live c ≡ false)
    → n + 1 ≤ a
    → mark live n true a ≡ false
mark_above live n a fresh above = rw (==_apart a n (omega arith)) (fresh a (omega arith))

pub failure : (err : ℤ) → (err ==ℤ pos 0) ≡ false → err ≢ pos 0
failure err bad = λ same. true≢false (sym (ap (λ e. e ==ℤ pos 0) same) ∙ bad)

module _ {S : Type 0} where
  -- The next block has not been given yet.
  abbrev pub IsFresh : World S → Type 0
  IsFresh w = (a : ℕ) → w.next ≤ a → w.live a ≡ false

  -- The same blocks are live.
  abbrev pub SameBlocks : World S → World S → Type 0
  SameBlocks v w = (a : ℕ) → v.live a ≡ w.live a

  -- One more block is live.
  abbrev pub OneMore : World S → World S → ℕ → Type 0
  OneMore v w b = (a : ℕ) → w.live a ≡ mark v.live b true a

  -- What an initialisation leaves: on success a pointer to a new live block, on failure NULL and no
  -- block more.
  pub data Initialised (v : World S) : Run S (ℤ × Handle) → Type 0 where
    made :
        (w : World S) (b : ℕ)
        → IsFresh w
        → v.live b ≡ false
        → OneMore v w b
        → Initialised v (Run.done (pos 0, some b) w)
    failed :
        (w : World S) (err : ℤ)
        → err ≢ pos 0
        → IsFresh w
        → SameBlocks v w
        → Initialised v (Run.done (err, none) w)

module _ {S : Type 0} (os : Call → S → ℤ × S) where
  pub check_init-Initialised :
      (value : Error → ℤ)
      → value not_enough_memory ≢ pos 0
      → (c : ℕ → Call) (w : World S) → IsFresh w
      → Initialised w (sync_init os value (λ a. sync_check_init os (c a) a) w)
  unfolding sync_init sync_check_init malloc call free
  check_init-Initialised value nonzero c w fresh =
      elim (Bool-cases ((os Call.malloc_succeeds w.os).0 ==ℤ pos 0)) [
        | inl refused ↦ rw (refused) (
            Initialised.failed (record w { os = (os Call.malloc_succeeds w.os).1 })
              (value not_enough_memory) nonzero fresh (λ a. refl))
        | inr allocated ↦
            rw (allocated)
              (elim (Bool-cases ((os (c w.next) (os Call.malloc_succeeds w.os).1).0 ==ℤ pos 0)) [
                | inl success ↦ rw (success) (
                    Initialised.made
                      (record {
                        live = mark w.live w.next true;
                        next = w.next + 1;
                        os = (os (c w.next) (os Call.malloc_succeeds w.os).1).1;
                      })
                      w.next (λ a. mark_above w.live w.next a fresh) (fresh w.next (omega arith))
                      (λ a. refl))
                | inr bad ↦
                    rw (bad, mark_self w.live w.next true)
                      (Initialised.failed
                        (record {
                          live = mark (mark w.live w.next true) w.next false;
                          next = w.next + 1;
                          os = (os (c w.next) (os Call.malloc_succeeds w.os).1).1;
                        })
                        (os (c w.next) (os Call.malloc_succeeds w.os).1).0
                        (failure ((os (c w.next) (os Call.malloc_succeeds w.os).1).0) bad)
                        (λ a above.
                          sym (mark_undone w.live w.next a (fresh w.next (omega arith)))
                          ∙ fresh a (omega arith))
                        (λ a. mark_undone w.live w.next a (fresh w.next (omega arith))))
              ])
      ]

-- What a destruction of a live block leaves: NULL, and one block less.
pub data Destroyed {S : Type 0} (v : World S) (b : ℕ) : Run S (ℤ × Handle) → Type 0 where
  destroyed :
      (w : World S) (err : ℤ)
      → ((a : ℕ) → w.live a ≡ mark v.live b false a)
      → w.next ≡ v.next
      → Destroyed v b (Run.done (err, none) w)

module _ {S : Type 0} (os : Call → S → ℤ × S) where
  pub sync_destroy-Destroyed :
      (dtor : ℕ → Call) (b : ℕ) (w : World S)
      → w.live b ≡ true
      → Destroyed w b (sync_destroy os dtor (some b) w)
  unfolding sync_destroy call free
  sync_destroy-Destroyed dtor b w alive =
      rw (alive, alive)
        (destroyed (record { live = mark w.live b false; next = w.next; os = (os (dtor b) w.os).1 })
          (os (dtor b) w.os).0 (λ a. refl) refl)

-- What any initialisation leaves, where these blocks were live before: a pointer to a new live block,
-- also where an error is reported, or NULL and no block more.
pub data Held {S : Type 0} (live : ℕ → Bool) : Run S (ℤ × Handle) → Type 0 where
  block :
      (w : World S) (err : ℤ) (b : ℕ)
      → live b ≡ false
      → ((a : ℕ) → w.live a ≡ mark live b true a)
      → Held live (Run.done (err, some b) w)
  nothing :
      (w : World S) (err : ℤ) → ((a : ℕ) → live a ≡ w.live a) → Held live (Run.done (err, none) w)

pub Initialised-Held :
    {S : Type 0} (v : World S) (run : Run S (ℤ × Handle)) → Initialised v run → Held v.live run
Initialised-Held v _ (made w b fresh unused more) = block w (pos 0) b unused more
Initialised-Held v _ (failed w err nonzero fresh same) = nothing w err same
