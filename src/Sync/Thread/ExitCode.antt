-- ===== src/Sync/Thread/ExitCode.antt =====
-- The exit code of a thread of src/rbc/sync/thread.c, from the call that ends it to the one that joins.
use rubidium_c.Prelude.{ℕ, ◌^◌, ◌≡◌, refl, true, some, arith}
use rubidium_c.Prelude.Int.{ℤ, pos, negsuc, wrap, InRange}
use rubidium_c.Prelude.Word.{u32_of}
use rubidium_c.Core.Error.{Error}
use rubidium_c.Core.Error.Windows.{WinCode}
use rubidium_c.Sync.World.{World, ◌>>◌}
use rubidium_c.Sync.Thread.Start.{returned}
use rubidium_c.Sync.Thread
use rubidium_c.Sync.Thread.{ThreadCall, join, exit_with, exit_pointer, Threads}
use rubidium_c.Sync.Windows.{WaitResult, wait_object_0}
use rubidium_c.Sync.Windows.Thread as WinThread
use rubidium_c.Sync.Windows.Thread.{
  WinThreads, WinThreadCall, get_exit_code_thread, end_thread_ex, infinite,
}

pointer_kept : (code : ℤ) → InRange (2 ^ 31) code → wrap (2 ^ 31) (pos (exit_pointer code)) ≡ code
unfolding wrap exit_pointer
pointer_kept (pos n) range = ground arith
pointer_kept (negsuc n) range = ground arith

dword_kept : (code : ℤ) → InRange (2 ^ 31) code → wrap (2 ^ 31) (pos (u32_of code)) ≡ code
unfolding wrap u32_of
dword_kept (pos n) range = ground arith
dword_kept (negsuc n) range = ground arith

-- Where the thread of a live block ends itself with an exit code and another thread joins it then, the
-- join succeeds and stores that code, negative or not. The systems are taken at their word: a join of
-- the thread gives the pointer that it ended with, a wait for it is over once it has ended, and its
-- exit code is the DWORD that it ended with.
pub join-exit :
    {S : Type 0} (posix : ThreadCall → S → (ℤ × ℕ) × S) (value : Error → ℤ)
    (windows : WinThreadCall → S → (ℕ × ℕ) × S) (last : S → WinCode)
    (wait_for_single_object : ℕ → ℕ → S → WaitResult × S) (a : ℕ) (code : ℤ) (v : World (Threads S))
    (w : World (WinThreads S))
    → InRange (2 ^ 31) code
    → v.live a ≡ true
    → w.live a ≡ true
    → ((p : ℕ) (s : S)
        → (posix (join (v.os.impls a).impl) (posix (exit_with p) s).1).0 ≡ (pos 0, p))
    → ((ms : ℕ) (n : ℕ) (s : S)
        → (wait_for_single_object (w.os.impls a).impl ms (windows (end_thread_ex n) s).1).0
          ≡ wait_object_0)
    → ((ms : ℕ) (n : ℕ) (s : S)
        → (windows
            (get_exit_code_thread (w.os.impls a).impl)
            (wait_for_single_object (w.os.impls a).impl ms (windows (end_thread_ex n) s).1).1).0
          ≡ (1, n))
    → (returned ((Thread.exit posix code >> Thread.join_with_code posix (some a) true) v)
        ≡ some (pos 0, some code))
      × (returned (
            (WinThread.exit windows code
                >> WinThread.join_with_code windows value last wait_for_single_object (some a) true)
              w)
          ≡ some (pos 0, some code))
unfolding Thread.exit Thread.call Thread.join_with_code WinThread.exit WinThread.call WinThread.wait
    WinThread.wait_object WinThread.join_with_code WinThread.exit_code_of
join-exit posix value windows last wait_for_single_object a code v w range alive there joins ends
      gives =
    (
      rw (alive, joins (exit_pointer code) v.os.system, pointer_kept code range) refl,
      rw
          (
            there,
            ends infinite (u32_of code) w.os.system,
            gives infinite (u32_of code) w.os.system,
            dword_kept code range,
          )
          refl,
    )
