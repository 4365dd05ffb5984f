-- ===== src/Sync/Thread/Frame.antt =====
-- The parts of the state that the functions of src/rbc/sync/thread.c leave alone: the block of a thread
-- that was started.
use mathlib.Core.Bool.{true≢false}
use rubidium_c.Prelude.{
  ℕ, ◌<◌, ◌≡◌, ◌≢◌, Bool, true, false, ◌==◌, if◌then◌else◌, none, some, arith, Bool-cases, inl, inr,
  equal_of, ap, sym, ◌∙◌,
}
use rubidium_c.Prelude.Int.{ℤ, pos, ◌==ℤ◌}
use rubidium_c.Core.Error.{Error}
use rubidium_c.Sync.World.{
  World, Run, done, fault, out_of_fuel, Cmd, and_then, ◌>>=◌, ◌>>◌, pure, check, free,
}
use rubidium_c.Sync.Impl.{Handle}
use rubidium_c.Sync.Thread
use rubidium_c.Sync.Thread.{
  ThreadCall, calloc_succeeds, attr_init, attr_setdetachstate, attr_setstacksize, attr_destroy,
  detach, ThreadImpl, Threads, load, save, call, call_code,
}

module _ {S : Type 0} (a : ℕ) (i : ThreadImpl) where
  -- The block `a` is live, is not the next one to be allocated, and holds `i`.
  abbrev pub Holds : World (Threads S) → Type 0
  Holds w = (w.live a ≡ true) × (a < w.next) × (w.os.impls a ≡ i)

  abbrev pub HoldsAfter : {A : Type 0} → Run (Threads S) A → Type 0
  HoldsAfter (done x w) = Holds w
  HoldsAfter fault = Unit
  HoldsAfter out_of_fuel = Unit

  abbrev pub Keeps : {A : Type 0} → Cmd (Threads S) A → Type 0
  Keeps m = (w : World (Threads S)) → Holds w → HoldsAfter (m w)

  pub then_HoldsAfter :
      {A B : Type 0} (r : Run (Threads S) A) (k : A → Cmd (Threads S) B)
      → HoldsAfter r
      → ((x : A) → Keeps (k x))
      → HoldsAfter (and_then r k)
  then_HoldsAfter (done x w) k h rest = rest x w h
  then_HoldsAfter fault k h rest = tt
  then_HoldsAfter out_of_fuel k h rest = tt

  then_Keeps :
      {A B : Type 0} (m : Cmd (Threads S) A) (k : A → Cmd (Threads S) B)
      → Keeps m
      → ((x : A) → Keeps (k x))
      → Keeps (m >>= k)
  then_Keeps m k first rest w h = then_HoldsAfter (m w) k (first w h) rest

  if_Keeps :
      {A : Type 0} (test : Bool) (m n : Cmd (Threads S) A)
      → Keeps m
      → Keeps n
      → Keeps (λ w. (if test then m else n) w)
  if_Keeps true m n yes_case no_case = yes_case
  if_Keeps false m n yes_case no_case = no_case

  pure-Keeps : {A : Type 0} (x : A) → Keeps (pure x)
  pure-Keeps x w h = h

  save-Keeps : (b : ℕ) (change : ThreadImpl → ThreadImpl) → b ≢ a → Keeps (save b change)
  save-Keeps b change other w (live, below, holds) = (
    live,
    below,
    elim (Bool-cases (a == b)) [
      | inl same ↦ absurd (other (sym (equal_of a b same)))
      | inr differs ↦ rw (differs) holds
    ],
  )

  free-Keeps : (b : ℕ) → b ≢ a → Keeps (free (some b))
  unfolding free
  free-Keeps b other w (live, below, holds) = elim (Bool-cases (w.live b)) [
    | inl there ↦ rw (there) (elim (Bool-cases (a == b)) [
      | inl same ↦ absurd (other (sym (equal_of a b same)))
      | inr differs ↦ rw (differs) (live, below, holds)
    ])
    | inr gone ↦ rw (gone) tt
  ]

  module _ (os : ThreadCall → S → (ℤ × ℕ) × S) (value : Error → ℤ) where
    call-Keeps : (c : ThreadCall) → Keeps (call os c)
    unfolding call
    call-Keeps c w h = h

    call_code-Keeps : (c : ThreadCall) → Keeps (call_code os c)
    unfolding call_code
    call_code-Keeps c = then_Keeps (call os c) _ (call-Keeps c) (λ result. pure-Keeps result.0)

    check-Keeps :
        (c : ThreadCall) (rest : Cmd (Threads S) ℤ)
        → Keeps rest
        → Keeps (check (call_code os c) rest)
    check-Keeps c rest kept =
        then_Keeps (call_code os c) _ (call_code-Keeps c)
          (λ err. if_Keeps (err ==ℤ pos 0) rest (pure err) kept (pure-Keeps err))

    create_Keeps : (b fn arg : ℕ) → b ≢ a → Keeps (Thread.create_with os b fn arg)
    unfolding Thread.create_with call
    create_Keeps b fn arg other w (live, below, holds) = (
      live,
      below,
      elim (Bool-cases (a == b)) [
        | inl same ↦ absurd (other (sym (equal_of a b same)))
        | inr differs ↦ rw (differs) holds
      ],
    )

    sized_Keeps :
        (b : ℕ) (j : ThreadImpl) (fn arg : ℕ)
        → b ≢ a
        → Keeps (λ w.
          (if j.stack_size == 0
              then Thread.create_with os b fn arg
              else check
                  (call_code os (attr_setstacksize j.stack_size))
                  (Thread.create_with os b fn arg))
            w)
    sized_Keeps b j fn arg other = elim (Bool-cases (j.stack_size == 0)) [
      | inl standard ↦ rw (standard) (create_Keeps b fn arg other)
      | inr chosen ↦ rw (chosen) (
          check-Keeps (attr_setstacksize j.stack_size) (Thread.create_with os b fn arg)
            (create_Keeps b fn arg other))
    ]

    start_attr-Keeps :
        (b : ℕ) (j : ThreadImpl) (fn arg : ℕ) → b ≢ a → Keeps (Thread.start_attr os b j fn arg)
    unfolding Thread.start_attr
    start_attr-Keeps b j fn arg other =
        check-Keeps attr_init _ (check-Keeps attr_setdetachstate _ (sized_Keeps b j fn arg other))

    other_block : (b n : ℕ) → b < n → (b == n) ≡ false
    other_block b n below = ground arith

    pub init-Keeps : Keeps (Thread.init os value)
    unfolding Thread.init call_code call
    init-Keeps w (live, below, holds) =
        elim (Bool-cases ((os calloc_succeeds w.os.system).0.0 ==ℤ pos 0)) [
          | inl refused ↦ rw (refused) (live, below, holds)
          | inr granted ↦ rw (granted, other_block a w.next below) (live, omega arith, holds)
        ]

    pub destroy-Keeps : (self : Handle) → self ≢ some a → Keeps (Thread.destroy {S = S} self)
    unfolding Thread.destroy
    destroy-Keeps none other w h = h
    destroy-Keeps (some b) other w h =
        then_HoldsAfter (free (some b) w) (λ _. pure (pos 0, none))
          (free-Keeps b (λ same. other (ap some same)) w h) (λ _ v kept. kept)

    -- `i` is the block of a thread that was started.
    module _ (started : (i.impl == 0) ≡ false) where
      not_busy :
          (b : ℕ) (w : World (Threads S)) → Holds w → ((w.os.impls b).impl == 0) ≡ true → b ≢ a
      not_busy b w (_, _, holds) idle same = true≢false (
          sym idle
          ∙ ap (λ c. (w.os.impls c).impl == 0) same
          ∙ ap (λ j. j.impl == 0) holds
          ∙ started)

      pub set_stack_size-Keeps :
          (self : Handle) (size : ℕ) → Keeps (Thread.set_stack_size value self size)
      unfolding Thread.set_stack_size
      set_stack_size-Keeps none size w h = h
      set_stack_size-Keeps (some b) size w h = elim (Bool-cases (w.live b)) [
        | inl there ↦ rw (there) (elim (Bool-cases ((w.os.impls b).impl == 0)) [
          | inl idle ↦
              rw (idle)
                (save-Keeps b (λ old. record old { stack_size = size }) (not_busy b w h idle) w h)
          | inr busy ↦ rw (busy) h
        ])
        | inr gone ↦ rw (gone) tt
      ]

      pub start-Keeps : (self : Handle) (fn arg : ℕ) → Keeps (Thread.start os value self fn arg)
      unfolding Thread.start call_code call
      start-Keeps none fn arg w h = tt
      start-Keeps (some b) fn arg w h = elim (Bool-cases (w.live b)) [
        | inl there ↦ rw (there) (elim (Bool-cases ((w.os.impls b).impl == 0)) [
          | inl idle ↦ rw (idle) (
              then_HoldsAfter (Thread.start_attr os b (w.os.impls b) fn arg w)
                (λ err. call_code os attr_destroy >> pure err)
                (start_attr-Keeps b (w.os.impls b) fn arg (not_busy b w h idle) w h)
                (λ _ v kept. kept))
          | inr busy ↦ rw (busy) h
        ])
        | inr gone ↦ rw (gone) tt
      ]
