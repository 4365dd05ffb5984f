-- ===== src/Sync/Windows/Thread.antt =====
-- The branch of src/rbc/sync/thread.c for Windows. `os` gives what a call returns, and what it stores
-- through a pointer: the number of a new thread, or an exit code. `wait` is WaitForSingleObject, `last`
-- GetLastError() and `errno` the variable. Addresses, functions and handles are numbers, 0 for NULL.
pub mod Timeouts
use rubidium_c.Prelude.{
  ℕ, ◌-◌, ◌^◌, Bool, true, false, ltb, ◌==◌, if◌then◌else◌, Option, none, some,
}
use rubidium_c.Prelude.Int.{ℤ, pos, wrap}
use rubidium_c.Prelude.Word.{u32_of}
use rubidium_c.Core.Error.{Error, invalid_argument, operation_in_progress}
use rubidium_c.Core.Error.Windows.{WinCode, from_get_last_error}
use rubidium_c.Time.Timespec.{StdTimespec}
use rubidium_c.Time.Duration.{Duration, is_neg}
use rubidium_c.Time.Duration.Convert.{to_ms}
use rubidium_c.Time.Point.{Time, time_now, time_sub}
use rubidium_c.Sync.World.{World, Run, Cmd, ◌>>=◌, ◌>>◌, pure, with_impl}
use rubidium_c.Sync.Impl.{Handle}
use rubidium_c.Sync.Windows.{WaitResult, wait_object_0}

-- `impl` is the HANDLE.
pub record WinThreadImpl : Type 0 where
  pub impl : ℕ
  pub id : ℕ
  pub fn : ℕ
  pub arg : ℕ
  pub stack_size : ℕ

-- The contents of the blocks, and the system.
pub record WinThreads (S : Type 0) : Type 0 where
  pub impls : ℕ → WinThreadImpl
  pub system : S

-- `begin_thread_ex` gets the stack's size and the address of the block.
pub data WinThreadCall : Type 0 where
  begin_thread_ex : ℕ → ℕ → WinThreadCall
  close_handle get_exit_code_thread sleep end_thread_ex : ℕ → WinThreadCall

abbrev pub put : (ℕ → WinThreadImpl) → ℕ → WinThreadImpl → ℕ → WinThreadImpl
put impls a i b = if b == a then i else impls b

abbrev pub infinite : ℕ
infinite = 2 ^ 32 - 1

-- `this` is the variable this_thread_impl, NULL in a thread that the library has not started.
unfoldable pub current : Handle → Handle
current this = this

module _ {S : Type 0} where
  abbrev pub load :
      {A : Type 0} → Handle → (WinThreadImpl → Cmd (WinThreads S) A) → Cmd (WinThreads S) A
  load self k = with_impl self (λ a w. k (w.os.impls a) w)

  abbrev pub save : ℕ → (WinThreadImpl → WinThreadImpl) → Cmd (WinThreads S) (Unit {0})
  save a change w = Run.done tt (record w {
    os = record { impls = put w.os.impls a (change (w.os.impls a)); system = w.os.system };
  })

  -- A handle of NULL has no number here.
  unfoldable pub id : Handle → Cmd (WinThreads S) ℕ
  id self = load self (λ i. pure i.id)

  unfoldable pub current_id : Handle → Cmd (WinThreads S) ℕ
  current_id none = pure 0
  current_id (some a) = load (some a) (λ i. pure i.id)

  -- What a new thread runs: `run` is the call of a function of the client with an argument, in a
  -- thread whose variable this_thread_impl has the value that comes first.
  unfoldable pub start_thread : (Handle → ℕ → ℕ → S → ℤ × S) → ℕ → Cmd (WinThreads S) ℤ
  start_thread run arg = load (some arg) λ i. λ w.
      let (ret, s) = run (some arg) i.fn arg w.os.system in
      Run.done ret (record w { os = record { impls = w.os.impls; system = s } })

module _ {S : Type 0} (os : WinThreadCall → S → (ℕ × ℕ) × S) where
  unfoldable pub call : WinThreadCall → Cmd (WinThreads S) (ℕ × ℕ)
  call c w =
      let (result, s) = os c w.os.system in
      Run.done result (record w { os = record { impls = w.os.impls; system = s } })

  unfoldable pub yield_thread : Cmd (WinThreads S) (Unit {0})
  yield_thread = call (sleep 0) >> pure tt

  -- The thread runs no further.
  unfoldable pub exit : ℤ → Cmd (WinThreads S) (Unit {0})
  exit exit_code = call (end_thread_ex (u32_of exit_code)) >> pure tt

  module _ (value : Error → ℤ) where
    unfoldable pub sleep_for : Duration → Cmd (WinThreads S) ℤ
    sleep_for timeout =
        if is_neg timeout
        then pure (value invalid_argument)
        else (call (sleep (u32_of (to_ms timeout))) >> pure (pos 0))

    unfoldable pub sleep_until : (S → StdTimespec) → Time → Cmd (WinThreads S) ℤ
    sleep_until clock deadline w = sleep_for (time_sub deadline (time_now (clock w.os.system))) w

    -- The block is written before the thread is made, and then again.
    unfoldable pub start : (S → ℤ) → Handle → ℕ → ℕ → Cmd (WinThreads S) ℤ
    start errno self fn arg =
        if fn == 0
        then pure (value invalid_argument)
        else with_impl self λ a. load self λ i.
          if i.impl == 0
          then (do
            save a (λ old. record old { fn = fn; arg = arg })
            (handle, number) ← call (begin_thread_ex i.stack_size a)
            save a
                (λ old. record old { impl = handle; id = if handle == 0 then old.id else number })
            if handle == 0 then (λ w. pure (errno w.os.system) w) else pure (pos 0))
          else pure (value operation_in_progress)

    module _ (last : S → WinCode) where
      unfoldable pub from_last_error : Cmd (WinThreads S) ℤ
      from_last_error w = pure (value (from_get_last_error (last w.os.system))) w

      unfoldable pub detach_thread : Handle → Cmd (WinThreads S) ℤ
      detach_thread self = load self λ i. do
        (closed, _) ← call (close_handle i.impl)
        if closed == 0 then from_last_error else pure (pos 0)

      -- Behind a wait that met the end of the thread.
      unfoldable pub exit_code_of : ℕ → Bool → Cmd (WinThreads S) (ℤ × Option ℤ)
      exit_code_of handle wanted =
          if wanted
          then (do
            (got, ret) ← call (get_exit_code_thread handle)
            if got == 0
                then (do error ← from_last_error; pure (error, none))
                else pure (pos 0, some (wrap (2 ^ 31) (pos ret))))
          else pure (pos 0, none)

      module _ (wait_for_single_object : ℕ → ℕ → S → WaitResult × S) where
        unfoldable pub wait_object : ℕ → ℕ → Cmd (WinThreads S) WaitResult
        wait_object handle milliseconds w =
            let (result, s) = wait_for_single_object handle milliseconds w.os.system in
            Run.done result (record w { os = record { impls = w.os.impls; system = s } })

        -- The code, and what is stored through `exit_code`; `wanted` where that is not NULL.
        unfoldable pub wait : Handle → ℕ → Bool → Cmd (WinThreads S) (ℤ × Option ℤ)
        wait self milliseconds wanted = load self λ i. do
          code ← wait_object i.impl milliseconds
          elim code [
            | wait_object_0 ↦ exit_code_of i.impl wanted
            | _ ↦ (do error ← from_last_error; pure (error, none))
          ]

        unfoldable pub join_with_code : Handle → Bool → Cmd (WinThreads S) (ℤ × Option ℤ)
        join_with_code self wanted = wait self infinite wanted

        unfoldable pub wait_for_with_code :
            Handle → Duration → Bool → Cmd (WinThreads S) (ℤ × Option ℤ)
        wait_for_with_code self timeout wanted =
            if is_neg timeout
            then pure (value invalid_argument, none)
            else wait self (u32_of (to_ms timeout)) wanted

        unfoldable pub wait_until_with_code :
            (S → StdTimespec) → Handle → Time → Bool → Cmd (WinThreads S) (ℤ × Option ℤ)
        wait_until_with_code clock self deadline wanted w =
            wait_for_with_code self (time_sub deadline (time_now (clock w.os.system))) wanted w
