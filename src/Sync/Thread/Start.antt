-- ===== src/Sync/Thread/Start.antt =====
-- What a thread started by src/rbc/sync/thread.c is given.
use rubidium_c.Prelude.{
  ==_self, ℕ, ◌≡◌, refl, true, ◌==◌, if◌then◌else◌, inl, inr, Bool-cases, Option, none, some,
}
use rubidium_c.Prelude.Int.{ℤ, pos, ◌==ℤ◌}
use rubidium_c.Core.Error.{Error}
use rubidium_c.Sync.World.{
  World, Run, done, fault, out_of_fuel, Cmd, and_then, ◌>>=◌, ◌>>◌, pure, check,
}
use rubidium_c.Sync.Impl.{Handle}
use rubidium_c.Sync.Thread.{
  ThreadCall, attr_init, attr_destroy, create, attr_setdetachstate, attr_setstacksize, Threads,
  ThreadImpl, start_thread, start, start_attr, create_with, call_code, call,
}

-- The value that a run returns.
abbrev pub returned : {S A : Type 0} → Run S A → Option A
returned (done a w) = some a
returned fault = none
returned out_of_fuel = none

module _ {S : Type 0} (os : ThreadCall → S → (ℤ × ℕ) × S) (value : Error → ℤ)
    (run : Handle → ℕ → ℕ → S → ℤ × S) where
  -- A thread that is started, and runs to its end.
  abbrev pub start_and_run : ℕ → ℕ → ℕ → Cmd (Threads S) ℤ
  start_and_run a fn arg = do
    err ← start os value (some a) fn arg
    if err ==ℤ pos 0 then start_thread run a else pure err

  -- What follows once the thread is created or not.
  abbrev finish : ℕ → Run (Threads S) ℤ → Option ℤ
  finish a r = returned (
      and_then (and_then r (λ err. call_code os attr_destroy >> pure err))
        (λ err. if err ==ℤ pos 0 then start_thread run a else pure err))

  created_same :
      (a fn arg other : ℕ) (v : World (Threads S))
      → v.live a ≡ true
      → finish a (create_with os a fn arg v) ≡ finish a (create_with os a fn other v)
  unfolding create_with call_code call start_thread
  created_same a fn arg other v alive =
      elim (Bool-cases ((os (create a) v.os.system).0.0 ==ℤ pos 0)) [
        | inl success ↦ rw (success, alive, ==_self a) refl
        | inr bad ↦ rw (bad) refl
      ]

  -- The system's state after a call.
  abbrev moved : World (Threads S) → S → World (Threads S)
  moved w s = record w { os = record { impls = w.os.impls; system = s } }

  sized_same :
      (a fn arg other : ℕ) (w : World (Threads S)) (s : S)
      → w.live a ≡ true
      → finish a (
          check
            (call_code os (attr_setstacksize (w.os.impls a).stack_size))
            (create_with os a fn arg)
            (moved w s))
        ≡ finish a (
            check
              (call_code os (attr_setstacksize (w.os.impls a).stack_size))
              (create_with os a fn other)
              (moved w s))
  unfolding call_code call
  sized_same a fn arg other w s alive =
      elim (Bool-cases ((os (attr_setstacksize (w.os.impls a).stack_size) s).0.0 ==ℤ pos 0)) [
        | inl sized ↦ rw (sized) (
            created_same a fn arg other
              (moved w (os (attr_setstacksize (w.os.impls a).stack_size) s).1) alive)
        | inr bad ↦ rw (bad) refl
      ]

  abbrev sized : ℕ → ThreadImpl → Cmd (Threads S) ℤ → Cmd (Threads S) ℤ
  sized a i rest =
      if i.stack_size == 0 then rest else check (call_code os (attr_setstacksize i.stack_size)) rest

  attributes_same :
      (a fn arg other : ℕ) (w : World (Threads S)) (s : S)
      → w.live a ≡ true
      → finish a (
          check
            (call_code os attr_setdetachstate)
            (sized a (w.os.impls a) (create_with os a fn arg))
            (moved w s))
        ≡ finish a (
            check
              (call_code os attr_setdetachstate)
              (sized a (w.os.impls a) (create_with os a fn other))
              (moved w s))
  unfolding call_code call
  attributes_same a fn arg other w s alive =
      elim (Bool-cases ((os attr_setdetachstate s).0.0 ==ℤ pos 0)) [
        | inl joinable ↦ rw (joinable) (elim (Bool-cases ((w.os.impls a).stack_size == 0)) [
          | inl standard ↦
              rw (standard)
                (created_same a fn arg other (moved w (os attr_setdetachstate s).1) alive)
          | inr chosen ↦
              rw (chosen) (sized_same a fn arg other w (os attr_setdetachstate s).1 alive)
        ])
        | inr bad ↦ rw (bad) refl
      ]

  -- Whatever argument a thread is started with, it runs the same and returns the same: the function
  -- of the client is not called with that argument.
  pub start_drops_arg :
      (a fn arg other : ℕ) (w : World (Threads S))
      → w.live a ≡ true
      → returned (start_and_run a fn arg w) ≡ returned (start_and_run a fn other w)
  unfolding start start_attr call_code call
  start_drops_arg a fn arg other w alive = elim (Bool-cases ((w.os.impls a).impl == 0)) [
    | inl idle ↦
        rw (alive, idle)
          (elim (Bool-cases ((os attr_init w.os.system).0.0 ==ℤ pos 0)) [
            | inl made ↦
                rw (made) (attributes_same a fn arg other w (os attr_init w.os.system).1 alive)
            | inr bad ↦ rw (bad) refl
          ])
    | inr busy ↦ rw (alive, busy) refl
  ]
