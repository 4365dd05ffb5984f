-- ===== src/Sync/Thread/Busy.antt =====
-- What clients do to the threads of src/rbc/sync/thread.c, and a thread that was started.
use rubidium_c.Prelude.{
  ℕ, ◌<◌, ◌≡◌, ◌≢◌, refl, Bool, true, false, ◌==◌, none, some, Bool-cases, inl, inr,
}
use rubidium_c.Prelude.Int.{ℤ, pos, ◌==ℤ◌}
use rubidium_c.Core.Error.{Error, operation_in_progress}
use rubidium_c.Time.Timespec.{StdTimespec}
use rubidium_c.Time.Duration.{Duration}
use rubidium_c.Time.Duration.Timespec.{TimeType, duration_to_timespec}
use mathlib.Core.Path.{subst}
use rubidium_c.Time.Point.{Time}
use rubidium_c.Sync.World.{World, done, Cmd, ◌>>=◌, pure}
use rubidium_c.Sync.Impl.{Handle}
use rubidium_c.Sync.Thread
use rubidium_c.Sync.Thread.{
  ThreadCall, calloc_succeeds, attr_init, attr_setdetachstate, attr_setstacksize, attr_destroy,
  nanosleep, ThreadImpl, Threads, load, save, call, call_code,
}
use rubidium_c.Sync.Thread.Frame.{
  Holds, HoldsAfter, Keeps, then_HoldsAfter, init-Keeps, destroy-Keeps, set_stack_size-Keeps,
  start-Keeps,
}

-- What a client can do; the flag says whether an exit code is asked for.
pub data Operation : Type 0 where
  init : Operation
  destroy detach_thread : Handle → Operation
  set_stack_size : Handle → ℕ → Operation
  start : Handle → ℕ → ℕ → Operation
  join_with_code : Handle → Bool → Operation
  wait_until_with_code : Handle → Time → Bool → Operation
  wait_for_with_code : Handle → Duration → Bool → Operation
  sleep_for : Duration → Operation

-- Not the end of the block `a`.
abbrev pub Spares : ℕ → Operation → Type 0
Spares a (destroy self) = self ≢ some a
Spares a _ = Unit

module _ {S : Type 0} (os : ThreadCall → S → (ℤ × ℕ) × S) (value : Error → ℤ) (time_type : TimeType)
    (clock : S → StdTimespec) where
  -- The error code of an operation.
  abbrev pub perform : Operation → Cmd (Threads S) ℤ
  perform init = do result ← Thread.init os value; pure result.0
  perform (destroy self) = do result ← Thread.destroy self; pure result.0
  perform (detach_thread self) = Thread.detach_thread os self
  perform (set_stack_size self size) = Thread.set_stack_size value self size
  perform (start self fn arg) = Thread.start os value self fn arg
  perform (join_with_code self wanted) = do
    result ← Thread.join_with_code os self wanted
    pure result.0
  perform (wait_until_with_code self deadline wanted) = do
    result ← Thread.wait_until_with_code os time_type self deadline wanted
    pure result.0
  perform (wait_for_with_code self timeout wanted) = do
    result ← Thread.wait_for_with_code os time_type clock self timeout wanted
    pure result.0
  perform (sleep_for timeout) = Thread.sleep_for os time_type timeout

  -- The states that clients bring about, by operations that return and that spare the block `a`.
  pub data Reach (a : ℕ) (w : World (Threads S)) : World (Threads S) → Type 0 where
    none_yet : Reach a w w
    after :
        (op : Operation) (code : ℤ) (u v : World (Threads S))
        → Reach a w u
        → Spares a op
        → perform op u ≡ done code v
        → Reach a w v

  module _ (a : ℕ) (i : ThreadImpl) (started : (i.impl == 0) ≡ false) where
    perform-Keeps : (op : Operation) → Spares a op → Keeps a i (perform op)
    unfolding Thread.detach_thread Thread.join_with_code Thread.wait_until_with_code
        Thread.sleep_for Thread.wait_for_with_code call_code call
    perform-Keeps init spared w h =
        then_HoldsAfter a i (Thread.init os value w) (λ result. pure result.0)
          (init-Keeps a i os value w h) (λ _ v kept. kept)
    perform-Keeps (destroy self) spared w h =
        then_HoldsAfter a i (Thread.destroy self w) (λ result. pure result.0)
          (destroy-Keeps a i os value self spared w h) (λ _ v kept. kept)
    perform-Keeps (set_stack_size self size) spared w h =
        set_stack_size-Keeps a i os value started self size w h
    perform-Keeps (start self fn arg) spared w h = start-Keeps a i os value started self fn arg w h
    perform-Keeps (detach_thread none) spared w h = tt
    perform-Keeps (detach_thread (some b)) spared w h = elim (Bool-cases (w.live b)) [
      | inl there ↦ rw (there) h
      | inr gone ↦ rw (gone) tt
    ]
    perform-Keeps (join_with_code none wanted) spared w h = tt
    perform-Keeps (join_with_code (some b) wanted) spared w h = elim (Bool-cases (w.live b)) [
      | inl there ↦ rw (there) h
      | inr gone ↦ rw (gone) tt
    ]
    perform-Keeps (wait_until_with_code none deadline wanted) spared w h = tt
    perform-Keeps (wait_until_with_code (some b) deadline wanted) spared w h =
        elim (Bool-cases (w.live b)) [ inl there ↦ rw (there) h | inr gone ↦ rw (gone) tt ]
    perform-Keeps (wait_for_with_code none timeout wanted) spared w h = tt
    perform-Keeps (wait_for_with_code (some b) timeout wanted) spared w h =
        elim (Bool-cases (w.live b)) [ inl there ↦ rw (there) h | inr gone ↦ rw (gone) tt ]
    perform-Keeps (sleep_for timeout) spared w h =
        elim (Bool-cases
          ((os (nanosleep (duration_to_timespec time_type timeout)) w.os.system).0.0 ==ℤ pos 0)) [
            | inl slept ↦ rw (slept) h
            | inr bad ↦ rw (bad) h
          ]

    reach_Holds : (w v : World (Threads S)) → Reach a w v → Holds a i w → Holds a i v
    reach_Holds w _ none_yet h = h
    reach_Holds w _ (after op code u v before spared runs) h =
        subst (HoldsAfter a i) runs (perform-Keeps op spared u (reach_Holds w u before h))

  -- A thread that was started, its block live and allocated before, cannot be started or be given
  -- another stack again, whatever clients do to it or to other threads, short of giving up its block:
  -- in every state they bring about, the block is live with the contents that it had, and both start
  -- and set_stack_size report that an operation is in progress and change nothing.
  pub start-Reach :
      (a fn arg size : ℕ) (w v : World (Threads S))
      → w.live a ≡ true
      → a < w.next
      → ((w.os.impls a).impl == 0) ≡ false
      → Reach a w v
      → (v.live a ≡ true)
        × (v.os.impls a ≡ w.os.impls a)
        × (Thread.start os value (some a) fn arg v ≡ done (value operation_in_progress) v)
        × (Thread.set_stack_size value (some a) size v ≡ done (value operation_in_progress) v)
  unfolding Thread.start Thread.set_stack_size
  start-Reach a fn arg size w v live below busy reached =
      let (there, _, same) = reach_Holds a (w.os.impls a) busy w v reached (live, below, refl) in
      (there, same, rw (there, same, busy) refl, rw (there, same, busy) refl)
