-- ===== src/Sync/Thread/Tests.antt =====
-- The theorems on the threads of src/rbc/sync at concrete systems.
use rubidium_c.Prelude.{ℕ, ◌+◌, ◌-◌, ◌^◌, ◌≡◌, refl, true, ◌==◌, some, arith}
use rubidium_c.Prelude.Int.{ℤ, pos, negsuc}
use rubidium_c.Core.Error.{Error, ok, timed_out, not_implemented, not_enough_memory}
use rubidium_c.Time.Duration.Timespec.{TimeType}
use rubidium_c.Sync.Impl.{Handle}
use rubidium_c.Sync.World.{World}
use rubidium_c.Sync.Thread
use rubidium_c.Core.Error.{operation_in_progress}
use rubidium_c.Sync.Windows.Thread.{end_thread_ex}
use rubidium_c.Sync.Thread.ExitCode.{join-exit}
use rubidium_c.Sync.Thread.Busy.{Reach, none_yet, after, join_with_code, start-Reach}
use rubidium_c.Sync.World.{◌>>◌}
use rubidium_c.Sync.Thread.{
  exit_with, ThreadCall, create, calloc_succeeds, Threads, zeroed, start, start_attr, create_with,
  start_thread,
}
use rubidium_c.Sync.Thread.Start.{returned, start_and_run, start_drops_arg}
use rubidium_c.Core.Error.Windows.{WinCode, success}
use rubidium_c.Sync.World.{done}
use rubidium_c.Sync.Windows.{WaitResult, wait_timeout, wait_object_0}
use rubidium_c.Sync.Windows.Thread as WinThread
use rubidium_c.Sync.Windows.Thread.{WinThreads, WinThreadCall}
use rubidium_c.Sync.Windows.Thread.Timeouts.{wait-limits}
use rubidium_c.Time.Duration.{duration_ms, duration_inf}
use rubidium_c.Time.Timespec.{StdTimespec}

abbrev long : TimeType
long = record { to_time_t = λ s. s; time_min = negsuc (2 ^ 63 - 1); time_max = pos (2 ^ 63 - 1) }

-- OK and three codes that the models name.
abbrev value : Error → ℤ
value ok = pos 0
value timed_out = pos 110
value not_enough_memory = pos 12
value not_implemented = negsuc 1
value _ = pos 1

abbrev no_error : ℕ → WinCode
no_error s = success

-- Every call of a thread succeeds; a thread that is made has the number 7.
abbrev thread_system : ThreadCall → ℕ → (ℤ × ℕ) × ℕ
thread_system (create a) s = ((pos 0, 7), s)
thread_system calloc_succeeds s = ((pos 1, 0), s)
thread_system _ s = ((pos 0, 0), s)

-- A function of the client that returns its argument.
abbrev echo : Handle → ℕ → ℕ → ℕ → ℤ × ℕ
echo this fn arg s = (pos arg, s)

abbrev one_thread : World (Threads ℕ)
one_thread = record {
  live = λ a. a == 3;
  next = 4;
  os = record { impls = λ _. zeroed; system = 0 };
}

start_drops_arg_example :
    returned (start_and_run thread_system value echo 3 1 10 one_thread)
    ≡ returned (start_and_run thread_system value echo 3 1 20 one_thread)
start_drops_arg_example = start_drops_arg thread_system value echo 3 1 10 20 one_thread refl

-- The function gets the address of the thread's block, 3.
start_run : returned (start_and_run thread_system value echo 3 1 10 one_thread) ≡ some (pos 3)
unfolding start start_attr create_with Thread.call Thread.call_code start_thread
start_run = refl

abbrev noon_clock : ℕ → StdTimespec
noon_clock s = record { tv_sec = pos 43_200; tv_nsec = pos 0 }

-- On Windows the thread of the block 3 is running: every wait ends with its time limit.
abbrev win_thread_system : WinThreadCall → ℕ → (ℕ × ℕ) × ℕ
win_thread_system c s = ((1, 0), s)

abbrev runs_on : ℕ → ℕ → ℕ → WaitResult × ℕ
runs_on handle milliseconds s = (wait_timeout, s + milliseconds)

abbrev win_thread : World (WinThreads ℕ)
win_thread = record {
  live = λ a. a == 3;
  next = 4;
  os = record {
    impls = λ _. record { impl = 7; id = 9; fn = 1; arg = 0; stack_size = 0 };
    system = 0;
  };
}

wait-limits_example :
    (WinThread.wait_for_with_code win_thread_system value no_error runs_on
        (some 3)
        (duration_ms (pos (5 + 2 ^ 32)))
        true
        win_thread
      ≡ WinThread.wait_for_with_code win_thread_system value no_error runs_on
          (some 3)
          (duration_ms (pos 5))
          true
          win_thread)
    × (WinThread.wait_for_with_code win_thread_system value no_error runs_on
          (some 3)
          duration_inf
          true
          win_thread
        ≡ WinThread.join_with_code win_thread_system value no_error runs_on
            (some 3)
            true
            win_thread)
    × (WinThread.wait_until_with_code win_thread_system value no_error runs_on noon_clock
          (some 3)
          (record { rep = duration_inf })
          true
          win_thread
        ≡ WinThread.join_with_code win_thread_system value no_error runs_on
            (some 3)
            true
            win_thread)
wait-limits_example =
    wait-limits win_thread_system value no_error runs_on noon_clock (some 3) 5 true win_thread
      (omega arith)

-- A thread that ends leaves its exit code in the system's state.
abbrev ending : ThreadCall → ℕ → (ℤ × ℕ) × ℕ
ending (exit_with p) s = ((pos 0, 0), p)
ending _ s = ((pos 0, s), s)

abbrev win_ending : WinThreadCall → ℕ → (ℕ × ℕ) × ℕ
win_ending (end_thread_ex n) s = ((1, 0), n)
win_ending _ s = ((1, s), s)

abbrev ended : ℕ → ℕ → ℕ → WaitResult × ℕ
ended handle milliseconds s = (wait_object_0, s)

join-exit_example :
    (returned
        ((Thread.exit ending (negsuc 4) >> Thread.join_with_code ending (some 3) true) one_thread)
      ≡ some (pos 0, some (negsuc 4)))
    × (returned (
          (WinThread.exit win_ending (negsuc 4)
              >> WinThread.join_with_code win_ending value no_error ended (some 3) true)
            win_thread)
        ≡ some (pos 0, some (negsuc 4)))
join-exit_example =
    join-exit ending value win_ending no_error ended 3 (negsuc 4) one_thread win_thread
      (omega arith, omega arith) refl refl (λ p s. refl) (λ ms n s. refl) (λ ms n s. refl)

-- A thread in the block 3, joined and then left.
abbrev running : World (Threads ℕ)
running = record {
  live = λ a. a == 3;
  next = 4;
  os = record { impls = λ _. record { impl = 7; fn = 1; arg = 0; stack_size = 0 }; system = 0 };
}

joined : Reach thread_system value long (λ _. noon_clock 0) 3 running running
unfolding Thread.join_with_code Thread.call
joined = after (join_with_code (some 3) true) (pos 0) running running none_yet tt refl

start-Reach_example :
    (running.live 3 ≡ true)
    × (running.os.impls 3 ≡ running.os.impls 3)
    × (Thread.start thread_system value (some 3) 1 2 running
        ≡ done (value operation_in_progress) running)
    × (Thread.set_stack_size value (some 3) 64 running ≡ done (value operation_in_progress) running)
start-Reach_example =
    start-Reach thread_system value long (λ _. noon_clock 0) 3 1 2 64 running running refl
      (omega arith) refl joined
