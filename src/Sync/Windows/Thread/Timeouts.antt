-- ===== src/Sync/Windows/Thread/Timeouts.antt =====
-- The waits of src/rbc/sync/thread.c with a time limit on Windows.
use rubidium_c.Prelude.{
  ℕ, ◌+◌, ◌%◌, ◌<◌, ◌^◌, ◌≡◌, refl, Bool, true, false, none, some, arith, ◌∙◌, sym, ap,
}
use rubidium_c.Prelude.Int.{ℤ, pos, parts_disjoint}
use rubidium_c.Prelude.Word.{half_64, u32_of}
use rubidium_c.Core.Error.{Error, ok}
use rubidium_c.Core.Error.Windows.{WinCode, success, from_get_last_error}
use rubidium_c.Time.Timespec.{StdTimespec}
use rubidium_c.Time.Duration
use rubidium_c.Time.Duration.{Duration, duration_inf, duration_ms, is_neg, inf_ticks}
use rubidium_c.Time.Duration.Spec.{total, total_lem}
use rubidium_c.Time.Duration.Units.{from_i64-Exact}
use rubidium_c.Time.Duration.Counting.{convert-IsFloor, ms}
use rubidium_c.Time.Duration.Convert.{to_ms}
use rubidium_c.Time.Point.{time_sub}
use rubidium_c.Sync.World.{World, done}
use rubidium_c.Sync.Impl.{Handle}
use rubidium_c.Sync.Windows.{WaitResult, wait_timeout}
use rubidium_c.Sync.Windows.Thread.{
  WinThreads, WinThreadCall, wait, wait_object, from_last_error, wait_for_with_code,
  wait_until_with_code, join_with_code,
}

-- A count of milliseconds is kept by the conversion to a duration and back.
ms_kept :
    (n : ℕ)
    → n < half_64
    → (is_neg (duration_ms (pos n)) ≡ false) × (to_ms (duration_ms (pos n)) ≡ pos n)
unfolding duration_ms is_neg
ms_kept n room =
    let d = duration_ms (pos n) in
    let (finite, ticks) =
      from_i64-Exact (pos n) 1000 4_000_000 (omega arith) (omega arith) refl (omega arith) in
    (
      ground (arith, total_lem d, parts_disjoint (total d), parts_disjoint d.secs),
      convert-IsFloor ms d (pos n) finite (omega arith) (ground (arith, parts_disjoint (total d))),
    )

module _ {S : Type 0} (os : WinThreadCall → S → (ℕ × ℕ) × S) (value : Error → ℤ)
    (last : S → WinCode) (wait_for_single_object : ℕ → ℕ → S → WaitResult × S) where
  for_ms :
      (self : Handle) (n : ℕ) (wanted : Bool) (w : World (WinThreads S))
      → n < half_64
      → wait_for_with_code os value last wait_for_single_object self (duration_ms (pos n)) wanted w
        ≡ wait os value last wait_for_single_object self (n % 2 ^ 32) wanted w
  unfolding wait_for_with_code u32_of
  for_ms self n wanted w room = rw ((ms_kept n room).0, (ms_kept n room).1) refl

  -- Of a count of milliseconds, which fits i64, only the 32 low bits count: a thread that is waited
  -- for 2^32 milliseconds longer is waited for as long. A wait for ever, and one until the end of time
  -- are the same as a join.
  pub wait-limits :
      (clock : S → StdTimespec) (self : Handle) (n : ℕ) (wanted : Bool) (w : World (WinThreads S))
      → n + 2 ^ 32 < half_64
      → (wait_for_with_code os value last wait_for_single_object self
            (duration_ms (pos (n + 2 ^ 32)))
            wanted
            w
          ≡ wait_for_with_code os value last wait_for_single_object self
              (duration_ms (pos n))
              wanted
              w)
        × (wait_for_with_code os value last wait_for_single_object self duration_inf wanted w
            ≡ join_with_code os value last wait_for_single_object self wanted w)
        × (wait_until_with_code os value last wait_for_single_object clock self
              (record { rep = duration_inf })
              wanted
              w
            ≡ join_with_code os value last wait_for_single_object self wanted w)
  unfolding wait_for_with_code wait_until_with_code join_with_code u32_of is_neg to_ms
      Duration.is_inf time_sub Duration.sub
  wait-limits clock self n wanted w room = (
    for_ms self (n + 2 ^ 32) wanted w room
        ∙ ap (λ m. wait os value last wait_for_single_object self m wanted w) (omega arith)
        ∙ sym (for_ms self n wanted w (omega arith)),
    refl,
    refl,
  )

  -- A wait that is over its time limit reports the translation of the last error, which such a wait
  -- does not set: where that is ERROR_SUCCESS, the thread is running on and the result is that of a
  -- success, but for the exit code, which is not stored.
  pub late-result :
      (a : ℕ) (timeout : Duration) (wanted : Bool) (w : World (WinThreads S)) (s : S)
      → w.live a ≡ true
      → is_neg timeout ≡ false
      → wait_for_single_object (w.os.impls a).impl (u32_of (to_ms timeout)) w.os.system
        ≡ (wait_timeout, s)
      → last s ≡ success
      → wait_for_with_code os value last wait_for_single_object (some a) timeout wanted w
        ≡ done (value ok, none) (record w { os = record { impls = w.os.impls; system = s } })
  unfolding wait_for_with_code wait wait_object from_last_error from_get_last_error
  late-result a timeout wanted w s alive positive late silent =
      rw (positive, alive, late, silent) refl
