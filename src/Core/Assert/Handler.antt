-- ===== src/Core/Assert/Handler.antt =====
-- What the accesses of the handler of src/rbc/core/assert.c return and leave, in the form with a mutex.
use rubidium_c.Prelude.{ℕ, ◌≡◌, refl, ◌∙◌, Bool, true, false, not, ==_self, some, ◌⊎◌, inl, inr}
use rubidium_c.Prelude.Int.{ℤ, pos, ◌==ℤ◌}
use rubidium_c.Core.Error.{Error}
use rubidium_c.Sync.World.{
  Call, malloc_succeeds, mutexattr_init, mutexattr_settype, mutexattr_setrobust, errorcheck, World,
  Run, done, Cmd, ◌>>=◌, ◌>>◌, and_then, pure, call, malloc,
}
use rubidium_c.Sync.Mutex
use rubidium_c.Sync.Once.{call_once}
use rubidium_c.Core.Assert.{
  Globals, over, get_assert_handler, set_assert_handler, get_assert_handler_atomic,
  set_assert_handler_atomic, init_assert_handler_mutex, lock_mutex, unlock_mutex,
}

-- What is relied on: the first call for a once flag runs the routine and the later ones do not, the
-- other calls leave the flag alone, and there is what a mutex is made of.
pub record Works {S : Type 0} (os : Call → S → ℤ × S) (once : S → (Bool × ℤ) × S) (ran : S → Bool)
    : Type 0 where
  pub first : (s : S) → (once s).0.0 ≡ not (ran s)
  pub later : (s : S) → ran (once s).1 ≡ true
  pub apart : (c : Call) (s : S) → ran (os c s).1 ≡ ran s
  pub memory : (s : S) → ((os malloc_succeeds s).0 ==ℤ pos 0) ≡ false
  pub attributes : (s : S) → (os mutexattr_init s).0 ≡ pos 0
  pub typed : (s : S) → (os (mutexattr_settype errorcheck) s).0 ≡ pos 0
  pub robust : (s : S) → (os mutexattr_setrobust s).0 ≡ pos 0

module _ {S : Type 0} (os : Call → S → ℤ × S) (once : S → (Bool × ℤ) × S) (ran : S → Bool)
    (value : Error → ℤ) where
  -- The mutex is not made yet, or it is there.
  abbrev pub Ready : World (Globals S) → Type 0
  Ready w =
      (ran w.os.system ≡ false)
      ⊎ (ran w.os.system ≡ true) × ((a : ℕ) × (w.os.mutex ≡ some a) × (w.live a ≡ true))

  -- A run that returns `n`, with the handler `h` set behind it.
  pub data Answered (n h : ℕ) : Run (Globals S) ℕ → Type 0 where
    answered : (v : World (Globals S)) → Ready v → v.os.handler ≡ h → Answered n h (done n v)

  -- The mutex is there, and the handler is as before.
  data Made (w : World (Globals S)) : Run (Globals S) ℤ → Type 0 where
    made :
        (code : ℤ) (v : World (Globals S)) (a : ℕ)
        → ran v.os.system ≡ true
        → v.os.mutex ≡ some a
        → v.live a ≡ true
        → v.os.handler ≡ w.os.handler
        → Made w (done code v)

  -- What follows the once call in the two operations.
  abbrev read_handler : Cmd (Globals S) ℕ
  read_handler = do
    lock_mutex os once value
    handler ← get_assert_handler_atomic
    unlock_mutex os once value
    pure handler

  abbrev exchange_handler : ℕ → Cmd (Globals S) ℕ
  exchange_handler handler = do
    lock_mutex os once value
    prev_handler ← set_assert_handler_atomic handler
    unlock_mutex os once value
    pure prev_handler

  module _ (works : Works os once ran) where
    kept : (c : Call) (s : S) → ran s ≡ true → ran (os c s).1 ≡ true
    kept c s h = works.apart c s ∙ h

    once-Made :
        (w : World (Globals S))
        → Ready w
        → Made w (call_once (over once) (init_assert_handler_mutex os once value) w)
    unfolding init_assert_handler_mutex call_once Mutex.init Mutex.init_type
        Mutex.check_with_cleanup Mutex.init_allocated call malloc
    once-Made w (inl fresh) =
        rw
          (
            works.first w.os.system,
            fresh,
            works.attributes s1,
            works.typed s2,
            works.robust s3,
            works.memory (os mutexattr_setrobust s3).1,
          )
          (made _ _ w.next
            (kept _ _
              (kept _ _ (kept _ _ (kept _ _ (kept _ _ (kept _ _ (works.later w.os.system)))))))
            refl (rw (==_self w.next) refl) refl)
      where
        s1 : S
        s1 = (once w.os.system).1

        s2 : S
        s2 = (os mutexattr_init s1).1

        s3 : S
        s3 = (os (mutexattr_settype errorcheck) s2).1
    once-Made w (inr (over_once, (a, there, live))) =
        rw (works.first w.os.system, over_once)
          (made _ _ a (works.later w.os.system) there live refl)

    read-Answered :
        (w : World (Globals S)) (r : Run (Globals S) ℤ)
        → Made w r
        → Answered w.os.handler w.os.handler (and_then r (λ _. read_handler))
    unfolding Mutex.lock Mutex.unlock call get_assert_handler_atomic
    read-Answered w _ (made code v a over_once there live same) =
        rw (there, live, live, same)
          (answered _ (inr (kept _ _ (kept _ _ over_once), (a, refl, live))) refl)

    exchange-Answered :
        (n : ℕ) (w : World (Globals S)) (r : Run (Globals S) ℤ)
        → Made w r
        → Answered w.os.handler n (and_then r (λ _. exchange_handler n))
    unfolding Mutex.lock Mutex.unlock call set_assert_handler_atomic
    exchange-Answered n w _ (made code v a over_once there live same) =
        rw (there, live, live, same)
          (answered _ (inr (kept _ _ (kept _ _ over_once), (a, refl, live))) refl)

    pub get-Answered :
        (w : World (Globals S))
        → Ready w
        → Answered w.os.handler w.os.handler (get_assert_handler os once value w)
    unfolding get_assert_handler
    get-Answered w ready = read-Answered w _ (once-Made w ready)

    pub set-Answered :
        (n : ℕ) (w : World (Globals S))
        → Ready w
        → Answered w.os.handler n (set_assert_handler os once value n w)
    unfolding set_assert_handler
    set-Answered n w ready = exchange-Answered n w _ (once-Made w ready)
