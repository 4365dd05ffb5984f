-- ===== src/Core/Assert.antt =====
-- src/rbc/core/assert.c: the handler of failed assertions, in both of its forms, and what a failed
-- assertion does. The mutex and the once flag are those of src/rbc/sync with POSIX threads. A handler is
-- a number, 0 for NULL.
pub mod Handler
pub mod Requests
mod Tests
use rubidium_c.Prelude.{ℕ, ◌==◌, Bool, if◌then◌else◌, Option, none, some, List, ◌++◌}
use rubidium_c.Prelude.Int.{ℤ}
use rubidium_c.Core.Error.{Error}
use rubidium_c.Core.Error.Message.{codes}
use rubidium_c.Core.SourceLocation.{SourceLocation, print_to}
use rubidium_c.Sync.World.{Call, World, Run, Cmd, ◌>>=◌, ◌>>◌, pure}
use rubidium_c.Sync.Impl.{Handle}
use rubidium_c.Sync.Mutex
use rubidium_c.Sync.Once.{call_once}

-- The static variables, what was written to stderr, and the system with the once flag.
pub record Globals (S : Type 0) : Type 0 where
  pub handler : ℕ
  pub mutex : Handle
  pub errors : List ℕ
  pub system : S

abbrev pub over : {S R : Type 0} → (S → R × S) → Globals S → R × Globals S
over step g =
    let (result, s) = step g.system in
    (result, record { handler = g.handler; mutex = g.mutex; errors = g.errors; system = s })

-- EXIT_FAILURE
abbrev pub exit_failure : ℕ
exit_failure = 1

module _ {S : Type 0} where
  -- The accesses of a handler that is atomic.
  unfoldable pub get_assert_handler_atomic : Cmd (Globals S) ℕ
  get_assert_handler_atomic w = Run.done w.os.handler w

  unfoldable pub set_assert_handler_atomic : ℕ → Cmd (Globals S) ℕ
  set_assert_handler_atomic handler w =
      Run.done w.os.handler (record w { os = record w.os { handler = handler } })

  -- fprintf(stderr, ...)
  abbrev pub write : List ℕ → Cmd (Globals S) (Unit {0})
  write text w = Run.done tt (record w { os = record w.os { errors = w.os.errors ++ text } })

  -- `get` is one of the two forms of rbc_get_assert_handler, `call_handler` what a handler does with the
  -- message and the place. The text in brackets is what vfprintf makes of the format. The result is
  -- the code that the process exits with.
  module _ (has_column full_info : Bool) (digits : ℕ → List ℕ) (get : Cmd (Globals S) ℕ)
      (call_handler : ℕ → List ℕ → SourceLocation → Cmd (Globals S) (Unit {0})) where
    unfoldable pub throw_assert_x : List ℕ → SourceLocation → Option (List ℕ) → Cmd (Globals S) ℕ
    throw_assert_x msg loc formatted = do
      write (codes "Assertion failed: " ++ msg)
      elim formatted [
        | none ↦ pure tt
        | some text ↦ write (codes " (") >> write text >> write (codes ")")
      ]
      write (codes " at ")
      write (print_to has_column full_info digits loc)
      write (codes "\n")
      handler ← get
      if handler == 0 then pure tt else call_handler handler msg loc
      pure exit_failure

    unfoldable pub throw_assert : List ℕ → SourceLocation → Cmd (Globals S) ℕ
    throw_assert msg loc = throw_assert_x msg loc none

-- The form with a mutex, which the first access makes; no error is looked at.
module _ {S : Type 0} (os : Call → S → ℤ × S) (once : S → (Bool × ℤ) × S) (value : Error → ℤ) where
  unfoldable pub init_assert_handler_mutex : Cmd (Globals S) (Unit {0})
  init_assert_handler_mutex w =
      (do
        (_, mutex) ← Mutex.init (λ c. over (os c)) value w.os.mutex
        λ v. Run.done tt (record v { os = record v.os { mutex = mutex } }))
        w

  abbrev pub lock_mutex : Cmd (Globals S) ℤ
  lock_mutex w = Mutex.lock (λ c. over (os c)) w.os.mutex w

  abbrev pub unlock_mutex : Cmd (Globals S) ℤ
  unlock_mutex w = Mutex.unlock (λ c. over (os c)) w.os.mutex w

  unfoldable pub get_assert_handler : Cmd (Globals S) ℕ
  get_assert_handler = do
    call_once (over once) init_assert_handler_mutex
    lock_mutex
    handler ← get_assert_handler_atomic
    unlock_mutex
    pure handler

  unfoldable pub set_assert_handler : ℕ → Cmd (Globals S) ℕ
  set_assert_handler handler = do
    call_once (over once) init_assert_handler_mutex
    lock_mutex
    prev_handler ← set_assert_handler_atomic handler
    unlock_mutex
    pure prev_handler
