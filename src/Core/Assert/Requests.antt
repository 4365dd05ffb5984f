-- ===== src/Core/Assert/Requests.antt =====
-- The handler of src/rbc/core/assert.c as a cell that is read and exchanged, in both of its forms.
use rubidium_c.Prelude.{
  ℕ, ◌≡◌, refl, ap, ◌∙◌, Bool, true, Option, none, some, List, [], ◌∷◌, inl, inr, Bool-cases,
}
use rubidium_c.Prelude.Int.{ℤ, pos, ◌==ℤ◌}
use rubidium_c.Core.Error.{Error}
use rubidium_c.Sync.World.{
  Call, malloc_succeeds, mutexattr_init, mutexattr_settype, mutexattr_setrobust, errorcheck, World,
  Run, done, fault, out_of_fuel, Cmd, ◌>>=◌, and_then, pure, call, malloc,
}
use rubidium_c.Sync.Mutex
use rubidium_c.Sync.Once.{call_once}
use rubidium_c.Sync.Thread.Start.{returned}
use rubidium_c.Core.Assert.{
  Globals, get_assert_handler, set_assert_handler, get_assert_handler_atomic,
  set_assert_handler_atomic, init_assert_handler_mutex,
}
use rubidium_c.Core.Assert.Handler.{Works, Ready, Answered, answered, get-Answered, set-Answered}

-- What clients ask for, and the answers that a cell with the handler `h` gives.
pub data Request : Type 0 where
  get : Request
  set : ℕ → Request

abbrev pub after : Request → ℕ → ℕ
after get h = h
after (set n) h = n

abbrev pub answers : ℕ → List Request → List ℕ
answers h [] = []
answers h (r ∷ rs) = h ∷ answers (after r h) rs

abbrev pub perform_all :
    {S : Type 0} → (Request → Cmd (Globals S) ℕ) → List Request → Cmd (Globals S) (List ℕ)
perform_all serve [] = pure []
perform_all serve (r ∷ rs) = do n ← serve r; ns ← perform_all serve rs; pure (n ∷ ns)

-- The two forms.
abbrev pub serve_atomic : {S : Type 0} → Request → Cmd (Globals S) ℕ
serve_atomic get = get_assert_handler_atomic
serve_atomic (set n) = set_assert_handler_atomic n

abbrev pub serve :
    {S : Type 0}
    → (Call → S → ℤ × S)
    → (S → (Bool × ℤ) × S)
    → (Error → ℤ)
    → Request
    → Cmd (Globals S) ℕ
serve os once value get = get_assert_handler os once value
serve os once value (set n) = set_assert_handler os once value n

prepend : ℕ → Option (List ℕ) → Option (List ℕ)
prepend n none = none
prepend n (some ns) = some (n ∷ ns)

returned-cons :
    {S : Type 0} (n : ℕ) (ns : List ℕ) (r : Run (Globals S) (List ℕ))
    → returned r ≡ some ns
    → returned (and_then r (λ ms. pure (n ∷ ms))) ≡ some (n ∷ ns)
unfolding prepend
returned-cons n ns (done ms v) h = ap (prepend n) h
returned-cons n ns fault h = ap (prepend n) h
returned-cons n ns out_of_fuel h = ap (prepend n) h

atomic-answers :
    {S : Type 0} (rs : List Request) (w : World (Globals S))
    → returned (perform_all serve_atomic rs w) ≡ some (answers w.os.handler rs)
unfolding get_assert_handler_atomic set_assert_handler_atomic
atomic-answers [] w = refl
atomic-answers (get ∷ rs) w =
    returned-cons w.os.handler (answers w.os.handler rs) (perform_all serve_atomic rs w)
      (atomic-answers rs w)
atomic-answers (set n ∷ rs) w =
    returned-cons w.os.handler (answers n rs)
      (perform_all serve_atomic rs (record w { os = record w.os { handler = n } }))
      (atomic-answers rs (record w { os = record w.os { handler = n } }))

module _ {S : Type 0} (os : Call → S → ℤ × S) (once : S → (Bool × ℤ) × S) (ran : S → Bool)
    (value : Error → ℤ) (works : Works os once ran) where
  serve-Answered :
      (r : Request) (w : World (Globals S))
      → Ready os once ran value w
      → Answered os once ran value w.os.handler (after r w.os.handler) (serve os once value r w)
  serve-Answered get w ready = get-Answered os once ran value works w ready
  serve-Answered (set n) w ready = set-Answered os once ran value works n w ready

  next-answers :
      (n h : ℕ) (rs : List Request) (r : Run (Globals S) ℕ)
      → Answered os once ran value n h r
      → ((v : World (Globals S))
          → Ready os once ran value v
          → returned (perform_all (serve os once value) rs v) ≡ some (answers v.os.handler rs))
      → returned (and_then r (λ m. perform_all (serve os once value) rs >>= λ ns. pure (m ∷ ns)))
        ≡ some (n ∷ answers h rs)
  next-answers n h rs _ (answered v ready same) later =
      returned-cons n (answers h rs) (perform_all (serve os once value) rs v)
        (later v ready ∙ ap (λ k. some (answers k rs)) same)

  mutex-answers :
      (rs : List Request) (w : World (Globals S))
      → Ready os once ran value w
      → returned (perform_all (serve os once value) rs w) ≡ some (answers w.os.handler rs)
  mutex-answers [] w ready = refl
  mutex-answers (r ∷ rs) w ready =
      next-answers w.os.handler (after r w.os.handler) rs (serve os once value r w)
        (serve-Answered r w ready) (λ v again. mutex-answers rs v again)

  -- Both forms of the handler are a cell: where the once flag is that of a program that starts, or the
  -- mutex has been made, and the system does what is relied on, every sequence of reads and exchanges
  -- returns, each with the handler that was set last, whichever form serves it.
  pub handler-answers :
      (rs : List Request) (w : World (Globals S))
      → Ready os once ran value w
      → (returned (perform_all (serve os once value) rs w) ≡ some (answers w.os.handler rs))
        × (returned (perform_all serve_atomic rs w) ≡ some (answers w.os.handler rs))
  handler-answers rs w ready = (mutex-answers rs w ready, atomic-answers rs w)

-- Where the once flag is that of a program that starts and there is no memory for the mutex, whose
-- pointer is still NULL, reading the handler and setting it both go through that pointer.
pub handler_faults :
    {S : Type 0} (os : Call → S → ℤ × S) (once : S → (Bool × ℤ) × S) (value : Error → ℤ) (n : ℕ)
    (w : World (Globals S))
    → ((s : S) → (os malloc_succeeds s).0 ≡ pos 0)
    → (once w.os.system).0.0 ≡ true
    → w.os.mutex ≡ none
    → (get_assert_handler os once value w ≡ fault) × (set_assert_handler os once value n w ≡ fault)
unfolding get_assert_handler set_assert_handler init_assert_handler_mutex call_once Mutex.init
    Mutex.init_type Mutex.check_with_cleanup Mutex.init_allocated Mutex.lock call malloc
handler_faults os once value n w full runs null =
    elim (Bool-cases ((os mutexattr_init (once w.os.system).1).0 ==ℤ pos 0)) [
      | inl attributes ↦
          elim (Bool-cases (
            (os (mutexattr_settype errorcheck) (os mutexattr_init (once w.os.system).1).1).0
            ==ℤ pos 0)) [
              | inl typed ↦
                  elim (Bool-cases (
                    (os mutexattr_setrobust
                      (os (mutexattr_settype errorcheck)
                        (os mutexattr_init (once w.os.system).1).1).1).0
                    ==ℤ pos 0)) [
                      | inl robust ↦
                          rw
                            (
                              runs,
                              attributes,
                              typed,
                              robust,
                              full
                                  (os mutexattr_setrobust
                                    (os (mutexattr_settype errorcheck)
                                      (os mutexattr_init (once w.os.system).1).1).1).1,
                            )
                            (refl, refl)
                      | inr bad ↦ rw (runs, attributes, typed, bad, null) (refl, refl)
                    ]
              | inr bad ↦ rw (runs, attributes, bad, null) (refl, refl)
            ]
      | inr bad ↦ rw (runs, bad, null) (refl, refl)
    ]
