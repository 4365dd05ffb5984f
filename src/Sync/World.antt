-- ===== src/Sync/World.antt =====
-- What src/rbc/sync acts on: the heap blocks of the implementations, and the operating system behind
-- the calls of <pthread.h>, <semaphore.h> and malloc, which is a parameter.
use rubidium_c.Prelude.{ℕ, ◌+◌, Bool, true, false, ◌==◌, if◌then◌else◌, Option, none, some}
use rubidium_c.Prelude.Int.{ℤ, pos, ◌==ℤ◌}
use rubidium_c.Time.Timespec.{Timespec}

-- PTHREAD_MUTEX_ERRORCHECK and PTHREAD_MUTEX_RECURSIVE.
pub data MutexType : Type 0 where
  errorcheck recursive : MutexType

-- The calls, with the addresses of the objects they are about. The attributes are local objects.
pub data Call : Type 0 where
  malloc_succeeds get_errno : Call
  mutexattr_init mutexattr_setrobust mutexattr_destroy : Call
  mutexattr_settype : MutexType → Call
  mutex_init mutex_destroy mutex_lock mutex_trylock mutex_unlock : ℕ → Call
  mutex_timedlock : ℕ → Timespec → Call
  rwlockattr_init rwlockattr_destroy : Call
  rwlockattr_setkind : ℕ → Call
  rwlock_init rwlock_destroy rwlock_wrlock rwlock_trywrlock rwlock_rdlock rwlock_tryrdlock :
      ℕ → Call
  rwlock_unlock : ℕ → Call
  cond_init cond_destroy cond_signal cond_broadcast : ℕ → Call
  cond_wait : ℕ → ℕ → Call
  cond_timedwait : ℕ → ℕ → Timespec → Call
  barrier_init : ℕ → ℕ → Call
  barrier_destroy barrier_wait : ℕ → Call
  spin_init spin_destroy spin_lock spin_trylock spin_unlock : ℕ → Call
  sem_init : ℕ → ℕ → Call
  sem_destroy sem_wait sem_trywait sem_post : ℕ → Call
  key_create key_delete getspecific : ℕ → Call
  setspecific : ℕ → ℤ → Call

-- The addresses that are allocated, the next one, and the system's state.
pub record World (S : Type 0) : Type 0 where
  pub live : ℕ → Bool
  pub next : ℕ
  pub os : S

-- A function returns, accesses or frees what it must not, or runs out of fuel.
pub data Run (S A : Type 0) : Type 0 where
  done : A → World S → Run S A
  fault : Run S A
  out_of_fuel : Run S A

abbrev pub Cmd : Type 0 → Type 0 → Type 0
Cmd S A = World S → Run S A

module _ {S A B : Type 0} where
  abbrev pub and_then : Run S A → (A → Cmd S B) → Run S B
  and_then (done a w) k = k a w
  and_then fault k = fault
  and_then out_of_fuel k = out_of_fuel

  infixl 5 ◌>>=◌ ◌>>◌
  abbrev pub ◌>>=◌ : Cmd S A → (A → Cmd S B) → Cmd S B
  m >>= k = λ w. and_then (m w) k

  abbrev pub ◌>>◌ : Cmd S A → Cmd S B → Cmd S B
  m >> n = m >>= λ _. n

-- A write of the map of live blocks.
abbrev pub mark : (ℕ → Bool) → ℕ → Bool → ℕ → Bool
mark live a b c = if c == a then b else live c

module _ {S : Type 0} where
  abbrev pub pure : {A : Type 0} → A → Cmd S A
  pure = Run.done

  -- RBC_SYNC_CHECK(expr)
  abbrev pub check : Cmd S ℤ → Cmd S ℤ → Cmd S ℤ
  check expr rest = expr >>= λ err. if err ==ℤ pos 0 then rest else pure err

  abbrev pub free_run : Option ℕ → Cmd S (Unit {0})
  free_run none w = Run.done tt w
  free_run (some a) w =
      if w.live a then Run.done tt (record w { live = mark w.live a false }) else Run.fault

  -- free(ptr), which accepts NULL and must not meet a block twice.
  unfoldable pub free : Option ℕ → Cmd S (Unit {0})
  free = free_run

  -- &self->impl->impl, which must be a live block.
  abbrev pub with_impl : {A : Type 0} → Option ℕ → (ℕ → Cmd S A) → Cmd S A
  with_impl none k w = Run.fault
  with_impl (some a) k w = if w.live a then k a w else Run.fault

module _ {S : Type 0} (os : Call → S → ℤ × S) where
  unfoldable pub call : Call → Cmd S ℤ
  call c w = let (result, s) = os c w.os in Run.done result (record w { os = s })

  -- malloc(size): the system decides whether there is memory.
  unfoldable pub malloc : Cmd S (Option ℕ)
  malloc w =
      let (result, s) = os Call.malloc_succeeds w.os in
      if result ==ℤ pos 0
      then Run.done none (record w { os = s })
      else Run.done (some w.next)
          (record { live = mark w.live w.next true; next = w.next + 1; os = s })
