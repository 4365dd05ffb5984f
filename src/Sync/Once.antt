-- ===== src/Sync/Once.antt =====
-- src/rbc/sync/once.c. `once` is the system's part of one call for one object: whether the call runs
-- the routine, and what it returns; 0 is FALSE on Windows and a success with POSIX threads.
use rubidium_c.Prelude.{Bool, if◌then◌else◌}
use rubidium_c.Prelude.Int.{ℤ, pos, ◌==ℤ◌}
use rubidium_c.Core.Error.{Error}
use rubidium_c.Core.Error.Windows.{WinCode, from_get_last_error}
use rubidium_c.Sync.World.{Cmd, ◌>>=◌, ◌>>◌, pure}

module _ {S : Type 0} (once : S → (Bool × ℤ) × S) where
  -- pthread_once or InitOnceExecuteOnce.
  abbrev pub execute_once : Cmd S (Unit {0}) → Cmd S ℤ
  execute_once routine w =
      let ((runs, code), s) = once w.os in
      ((if runs then routine else pure tt) >> pure code) (record w { os = s })

  unfoldable pub call_once : Cmd S (Unit {0}) → Cmd S ℤ
  call_once fn = execute_once fn

  -- On Windows. The callback of the system always returns TRUE.
  unfoldable pub init_once_fn : Cmd S (Unit {0}) → Cmd S ℤ
  init_once_fn fn = fn >> pure (pos 1)

  unfoldable pub call_once_windows : (Error → ℤ) → (S → WinCode) → Cmd S (Unit {0}) → Cmd S ℤ
  call_once_windows value last fn = do
    done ← execute_once (init_once_fn fn >> pure tt)
    if done ==ℤ pos 0 then (λ w. pure (value (from_get_last_error (last w.os))) w) else pure (pos 0)
