-- ===== src/Sync/Thread.antt =====
-- src/rbc/sync/thread.c with POSIX threads, on Linux. The blocks have contents, which all copies of a
-- handle share. Addresses, functions and arguments are numbers, 0 for NULL.
pub mod Start
pub mod Frame
pub mod Busy
pub mod ExitCode
mod Tests
use rubidium_c.Prelude.{
  ℕ, ◌+◌, ◌-◌, ◌^◌, Bool, true, false, ltb, ◌==◌, if◌then◌else◌, Option, none, some,
}
use rubidium_c.Prelude.Int.{ℤ, pos, negsuc, ◌-ℤ◌, ◌==ℤ◌, wrap}
use rubidium_c.Core.Error.{Error, not_enough_memory, invalid_argument, operation_in_progress}
use rubidium_c.Time.Timespec.{Timespec, StdTimespec}
use rubidium_c.Time.Duration.{Duration}
use rubidium_c.Time.Duration.Timespec.{TimeType, duration_to_timespec}
use rubidium_c.Time.Point.{Time, time_now, time_sub, time_to_timespec, time_deadline_from_timeout}
use rubidium_c.Sync.World.{World, Run, Cmd, mark, ◌>>=◌, ◌>>◌, pure, check, free, with_impl}
use rubidium_c.Sync.Impl.{Handle}

pub record ThreadImpl : Type 0 where
  pub impl : ℕ
  pub fn : ℕ
  pub arg : ℕ
  pub stack_size : ℕ

-- The contents of the blocks, and the system.
pub record Threads (S : Type 0) : Type 0 where
  pub impls : ℕ → ThreadImpl
  pub system : S

-- The calls; `create` gives the new thread the address that it starts with.
pub data ThreadCall : Type 0 where
  calloc_succeeds get_errno : ThreadCall
  attr_init attr_setdetachstate attr_destroy : ThreadCall
  attr_setstacksize create join detach : ℕ → ThreadCall
  timedjoin : ℕ → Timespec → ThreadCall
  nanosleep : Timespec → ThreadCall
  pthread_self sched_yield : ThreadCall
  exit_with : ℕ → ThreadCall

abbrev pub put : (ℕ → ThreadImpl) → ℕ → ThreadImpl → ℕ → ThreadImpl
put impls a i b = if b == a then i else impls b

abbrev pub zeroed : ThreadImpl
zeroed = record { impl = 0; fn = 0; arg = 0; stack_size = 0 }

-- `this` is the variable this_thread_impl, NULL in a thread that the library has not started.
unfoldable pub current : Handle → Handle
current this = this

module _ {S : Type 0} where
  -- self.impl->..., and a write through it.
  abbrev pub load : {A : Type 0} → Handle → (ThreadImpl → Cmd (Threads S) A) → Cmd (Threads S) A
  load self k = with_impl self (λ a w. k (w.os.impls a) w)

  abbrev pub save : ℕ → (ThreadImpl → ThreadImpl) → Cmd (Threads S) (Unit {0})
  save a change w = Run.done tt (record w {
    os = record { impls = put w.os.impls a (change (w.os.impls a)); system = w.os.system };
  })

  unfoldable pub id : Handle → Cmd (Threads S) ℕ
  id none = pure 0
  id (some a) = load (some a) (λ i. pure i.impl)

  -- (lhs_id > rhs_id) - (lhs_id < rhs_id)
  unfoldable pub cmp : Handle → Handle → Cmd (Threads S) ℤ
  cmp lhs rhs = do
    lhs_id ← id lhs
    rhs_id ← id rhs
    pure (
        (if ltb rhs_id lhs_id then pos 1 else pos 0)
        -ℤ (if ltb lhs_id rhs_id then pos 1 else pos 0))

  unfoldable pub equal : Handle → Handle → Cmd (Threads S) Bool
  equal lhs rhs = do order ← cmp lhs rhs; pure (order ==ℤ pos 0)

  unfoldable pub set_stack_size : (Error → ℤ) → Handle → ℕ → Cmd (Threads S) ℤ
  set_stack_size value none stack_size = pure (value invalid_argument)
  set_stack_size value (some a) stack_size = load (some a) λ i.
      if i.impl == 0
      then save a (λ old. record old { stack_size = stack_size }) >> pure (pos 0)
      else pure (value operation_in_progress)

  unfoldable pub stack_size : Handle → Cmd (Threads S) ℕ
  stack_size self = load self (λ i. pure i.stack_size)

  -- RBC_SYNC_DESTROY(RBC_ERROR_OK)
  unfoldable pub destroy : Handle → Cmd (Threads S) (ℤ × Handle)
  destroy none = pure (pos 0, none)
  destroy (some a) = free (some a) >> pure (pos 0, none)

  -- What a new thread runs: `run` is the call of a function of the client with an argument, in a
  -- thread whose variable this_thread_impl has the value that comes first.
  unfoldable pub start_thread : (Handle → ℕ → ℕ → S → ℤ × S) → ℕ → Cmd (Threads S) ℤ
  start_thread run arg = load (some arg) λ i. λ w.
      let (ret, s) = run (some arg) i.fn arg w.os.system in
      Run.done ret (record w { os = record { impls = w.os.impls; system = s } })

-- (void*) (isize) exit_code
unfoldable pub exit_pointer : ℤ → ℕ
exit_pointer (pos n) = n
exit_pointer (negsuc n) = 2 ^ 64 - 1 - n

-- `os` gives a code and what it stores through a pointer: a thread, or its exit code.
module _ {S : Type 0} (os : ThreadCall → S → (ℤ × ℕ) × S) where
  unfoldable pub call : ThreadCall → Cmd (Threads S) (ℤ × ℕ)
  call c w =
      let (result, s) = os c w.os.system in
      Run.done result (record w { os = record { impls = w.os.impls; system = s } })

  unfoldable pub call_code : ThreadCall → Cmd (Threads S) ℤ
  call_code c = do result ← call c; pure result.0

  unfoldable pub current_id : Cmd (Threads S) ℕ
  current_id = do (_, thread) ← call pthread_self; pure thread

  unfoldable pub yield_thread : Cmd (Threads S) (Unit {0})
  yield_thread = call sched_yield >> pure tt

  -- The thread runs no further.
  unfoldable pub exit : ℤ → Cmd (Threads S) (Unit {0})
  exit exit_code = call (exit_with (exit_pointer exit_code)) >> pure tt

  unfoldable pub init : (Error → ℤ) → Cmd (Threads S) (ℤ × Handle)
  init value = do
    granted ← call_code calloc_succeeds
    if granted ==ℤ pos 0 then pure (value not_enough_memory, none) else (λ w.
        Run.done (pos 0, some w.next)
          (record {
            live = mark w.live w.next true;
            next = w.next + 1;
            os = record { impls = put w.os.impls w.next zeroed; system = w.os.system };
          }))

  -- The attributes are destroyed wherever the function is left.
  unfoldable pub create_with : ℕ → ℕ → ℕ → Cmd (Threads S) ℤ
  create_with a fn arg = do
    save a (λ old. record old { fn = fn; arg = arg })
    (error, thread) ← call (create a)
    save a (λ old. record old { impl = thread })
    pure error

  unfoldable pub start_attr : ℕ → ThreadImpl → ℕ → ℕ → Cmd (Threads S) ℤ
  start_attr a i fn arg = check (call_code attr_init) (
      check (call_code attr_setdetachstate) (
        if i.stack_size == 0
        then create_with a fn arg
        else check (call_code (attr_setstacksize i.stack_size)) (create_with a fn arg)))

  unfoldable pub start : (Error → ℤ) → Handle → ℕ → ℕ → Cmd (Threads S) ℤ
  start value none fn arg = λ w. Run.fault
  start value (some a) fn arg = load (some a) λ i.
      if i.impl == 0
      then (do err ← start_attr a i fn arg; call_code attr_destroy; pure err)
      else pure (value operation_in_progress)

  unfoldable pub detach_thread : Handle → Cmd (Threads S) ℤ
  detach_thread self = load self (λ i. call_code (detach i.impl))

  -- The code, and what is stored through `exit_code` if that is not NULL.
  unfoldable pub join_with_code : Handle → Bool → Cmd (Threads S) (ℤ × Option ℤ)
  join_with_code self wanted = load self λ i. do
    (error, ret_code) ← call (join i.impl)
    pure (error, if wanted then some (wrap (2 ^ 31) (pos ret_code)) else none)

  unfoldable pub join_thread : Handle → Cmd (Threads S) ℤ
  join_thread self = do result ← join_with_code self false; pure result.0

  unfoldable pub wait_until_with_code :
      TimeType → Handle → Time → Bool → Cmd (Threads S) (ℤ × Option ℤ)
  wait_until_with_code time_type self deadline wanted = load self λ i. do
    (error, ret_code) ← call (timedjoin i.impl (time_to_timespec time_type deadline))
    pure (error, if wanted then some (wrap (2 ^ 31) (pos ret_code)) else none)

  unfoldable pub wait_until : TimeType → Handle → Time → Cmd (Threads S) ℤ
  wait_until time_type self deadline = do
    result ← wait_until_with_code time_type self deadline false
    pure result.0

  unfoldable pub sleep_for : TimeType → Duration → Cmd (Threads S) ℤ
  sleep_for time_type timeout = do
    err ← call_code (nanosleep (duration_to_timespec time_type timeout))
    if err ==ℤ pos 0 then pure (pos 0) else call_code get_errno

  module _ (time_type : TimeType) (clock : S → StdTimespec) where
    unfoldable pub wait_for_with_code : Handle → Duration → Bool → Cmd (Threads S) (ℤ × Option ℤ)
    wait_for_with_code self timeout wanted w =
        wait_until_with_code time_type self (time_deadline_from_timeout (clock w.os.system) timeout)
          wanted w

    unfoldable pub wait_for : Handle → Duration → Cmd (Threads S) ℤ
    wait_for self timeout = do result ← wait_for_with_code self timeout false; pure result.0

    unfoldable pub sleep_until : Time → Cmd (Threads S) ℤ
    sleep_until deadline w =
        sleep_for time_type (time_sub deadline (time_now (clock w.os.system))) w
