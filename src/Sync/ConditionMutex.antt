-- ===== src/Sync/ConditionMutex.antt =====
-- src/rbc/sync/condition_mutex.c. A condition is a function of what the threads share, which is part of
-- the system's state. The waiting loops run on fuel, one round for each wait.
pub mod Await
pub mod Entered
pub mod Deadline
pub mod Windows
use rubidium_c.Prelude.{ℕ, zero, suc, Bool, not, if◌then◌else◌, Option, none, some}
use rubidium_c.Prelude.Int.{ℤ, pos, ◌==ℤ◌}
use rubidium_c.Core.Error.{Error, ok, timed_out}
use rubidium_c.Time.Timespec.{StdTimespec}
use rubidium_c.Time.Duration.{Duration}
use rubidium_c.Time.Duration.Timespec.{TimeType}
use rubidium_c.Time.Point.{Time, time_deadline_from_timeout}
use rubidium_c.Sync.World.{Call, World, Run, Cmd, ◌>>=◌, ◌>>◌, pure, check}
use rubidium_c.Sync.Impl.{Handle}
use rubidium_c.Sync.Mutex
use rubidium_c.Sync.CondVar

pub record ConditionMutex : Type 0 where
  pub mu : Handle
  pub cv : Handle

-- fn(arg); a condition made of a variable reads it.
pub record Condition (S : Type 0) : Type 0 where
  pub fn : S → Bool

abbrev pub from_fn : {S : Type 0} → (S → Bool) → Condition S
from_fn fn = record { fn = fn }

-- A function that reads its argument, and the condition that is made of a variable.
pub dereference : {S : Type 0} → (S → Bool) → S → Bool
dereference arg s = arg s

pub from_bool : {S : Type 0} → (S → Bool) → Condition S
from_bool cond = record { fn = dereference cond }

-- The loops, over what they call: the notification of all, and the wait.
module _ {S : Type 0} where
  unfoldable pub eval : Condition S → World S → Bool
  eval condition w = condition.fn w.os

  pub await_loop : Cmd S ℤ → Cmd S ℤ → Condition S → ℕ → Cmd S ℤ
  await_loop notify_all wait condition zero = λ w. Run.out_of_fuel
  await_loop notify_all wait condition (suc fuel) =
      let rest = await_loop notify_all wait condition fuel in
      check notify_all (check wait (λ w. if eval condition w then pure (pos 0) w else rest w))

  pub await_by : Cmd S ℤ → Cmd S ℤ → Condition S → ℕ → Cmd S ℤ
  await_by notify_all wait condition fuel w =
      if eval condition w
      then pure (pos 0) w
      else check notify_all (await_loop notify_all wait condition fuel) w

  -- `timeout_code` is RBC_ERROR_TIMED_OUT. Any other result of the wait is passed over.
  pub await_until_loop : Cmd S ℤ → Cmd S ℤ → ℤ → Condition S → ℕ → Cmd S ℤ
  await_until_loop notify_all wait_until timeout_code condition zero = λ w. Run.out_of_fuel
  await_until_loop notify_all wait_until timeout_code condition (suc fuel) =
      let rest = await_until_loop notify_all wait_until timeout_code condition fuel in
      check notify_all (
        wait_until >>= λ error.
        if error ==ℤ timeout_code
        then pure timeout_code
        else (λ w. if eval condition w then pure (pos 0) w else rest w))

  pub await_until_by : Cmd S ℤ → Cmd S ℤ → ℤ → Condition S → ℕ → Cmd S ℤ
  await_until_by notify_all wait_until timeout_code condition fuel w =
      if eval condition w
      then pure (pos 0) w
      else check notify_all (await_until_loop notify_all wait_until timeout_code condition fuel) w

module _ {S : Type 0} (os : Call → S → ℤ × S) where
  -- `self` is given back with what the pointers are.
  pub init : (Error → ℤ) → ConditionMutex → Cmd S (ℤ × ConditionMutex)
  init value self = do
    (err, mu) ← Mutex.init os value self.mu
    if err ==ℤ pos 0
        then (do (error, cv) ← CondVar.init os value; pure (error, record { mu = mu; cv = cv }))
        else pure (err, record self { mu = mu })

  pub destroy : ConditionMutex → Cmd S (ℤ × ConditionMutex)
  destroy self = do
    (err, cv) ← CondVar.destroy os self.cv
    if err ==ℤ pos 0
        then (do (error, mu) ← Mutex.destroy os self.mu; pure (error, record { mu = mu; cv = cv }))
        else pure (err, record self { cv = cv })

  pub lock : ConditionMutex → Cmd S ℤ
  lock self = Mutex.lock os self.mu

  pub lock_until : TimeType → ConditionMutex → Time → Cmd S ℤ
  lock_until time_type self deadline = Mutex.lock_until os time_type self.mu deadline

  pub lock_for : TimeType → (S → StdTimespec) → ConditionMutex → Duration → Cmd S ℤ
  lock_for time_type clock self timeout = Mutex.lock_for os time_type clock self.mu timeout

  pub try_lock : ConditionMutex → Cmd S ℤ
  try_lock self = Mutex.try_lock os self.mu

  pub unlock : ConditionMutex → Cmd S ℤ
  unlock self = check (CondVar.notify_all os self.cv) (Mutex.unlock os self.mu)

  pub await : ConditionMutex → Condition S → ℕ → Cmd S ℤ
  await self condition =
      await_by (CondVar.notify_all os self.cv) (CondVar.wait os self.cv self.mu) condition

  pub lock_when : ConditionMutex → Condition S → ℕ → Cmd S ℤ
  lock_when self condition fuel = check (lock self) (await self condition fuel)

  module _ (value : Error → ℤ) (time_type : TimeType) where
    pub await_until : ConditionMutex → Condition S → Time → ℕ → Cmd S ℤ
    await_until self condition deadline =
        await_until_by (CondVar.notify_all os self.cv)
          (CondVar.wait_until os time_type self.cv self.mu deadline) (value timed_out) condition

    pub lock_when_until : ConditionMutex → Condition S → Time → ℕ → Cmd S ℤ
    lock_when_until self condition deadline fuel =
        check (lock self) (await_until self condition deadline fuel)

    pub await_for : (S → StdTimespec) → ConditionMutex → Condition S → Duration → ℕ → Cmd S ℤ
    await_for clock self condition timeout fuel w =
        await_until self condition (time_deadline_from_timeout (clock w.os) timeout) fuel w

    pub lock_when_for : (S → StdTimespec) → ConditionMutex → Condition S → Duration → ℕ → Cmd S ℤ
    lock_when_for clock self condition timeout fuel w =
        lock_when_until self condition (time_deadline_from_timeout (clock w.os) timeout) fuel w
