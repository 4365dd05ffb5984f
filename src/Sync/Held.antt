-- ===== src/Sync/Held.antt =====
-- What the initialisations of src/rbc/sync that keep their block on an error leave.
use rubidium_c.Prelude.{ℕ, ◌+◌, refl, true, inl, inr, Bool-cases, none, arith}
use rubidium_c.Prelude.Int.{ℤ, pos, ◌==ℤ◌}
use rubidium_c.Core.Error.{Error}
use rubidium_c.Sync.World.{
  Call, mutexattr_init, mutexattr_settype, mutexattr_setrobust, rwlockattr_init, rwlockattr_setkind,
  malloc_succeeds, sem_init, MutexType, World, Cmd, mark, call, malloc,
}
use rubidium_c.Sync.Impl.{Handle, sync_init, sync_check_last_error}
use rubidium_c.Sync.Impl.Laws.{IsFresh, Held, block, nothing}
use rubidium_c.Sync.Mutex
use rubidium_c.Sync.SharedMutex
use rubidium_c.Sync.Semaphore

module _ {S : Type 0} (os : Call → S → ℤ × S) (value : Error → ℤ) where
  abbrev moved : World S → S → World S
  moved w s = record w { os = s }

  -- The world once a block is given.
  abbrev given : World S → S → World S
  given w s = record { live = mark w.live w.next true; next = w.next + 1; os = s }

  mutex_allocated : (w : World S) → IsFresh w → Held w.live (Mutex.init_allocated os value w)
  unfolding Mutex.init_allocated call malloc
  mutex_allocated w fresh = elim (Bool-cases ((os malloc_succeeds w.os).0 ==ℤ pos 0)) [
    | inl refused ↦ rw (refused) (nothing _ _ (λ a. refl))
    | inr allocated ↦ rw (allocated) (block _ _ w.next (fresh w.next (omega arith)) (λ a. refl))
  ]

  mutex_checked :
      (c : Call) (rest : Cmd S (ℤ × Handle)) (w : World S)
      → ((s : S) → Held w.live (rest (moved w s)))
      → Held w.live (Mutex.check_with_cleanup os none (call os c) rest w)
  unfolding Mutex.check_with_cleanup call
  mutex_checked c rest w held = elim (Bool-cases ((os c w.os).0 ==ℤ pos 0)) [
    | inl success ↦ rw (success) (held (os c w.os).1)
    | inr bad ↦ rw (bad) (nothing _ _ (λ a. refl))
  ]

  mutex_typed :
      (type : MutexType) (w : World S)
      → IsFresh w
      → Held w.live (Mutex.init_type os type value none w)
  unfolding Mutex.init_type call
  mutex_typed type w fresh = elim (Bool-cases ((os mutexattr_init w.os).0 ==ℤ pos 0)) [
    | inl success ↦ rw (success) (
        mutex_checked (mutexattr_settype type) _ (moved w (os mutexattr_init w.os).1) (λ s.
          mutex_checked mutexattr_setrobust (Mutex.init_allocated os value) (moved w s)
            (λ t. mutex_allocated (moved w t) fresh)))
    | inr bad ↦ rw (bad) (nothing _ _ (λ a. refl))
  ]

  shared_allocated : (w : World S) → IsFresh w → Held w.live (SharedMutex.init_allocated os value w)
  unfolding SharedMutex.init_allocated call malloc
  shared_allocated w fresh = elim (Bool-cases ((os malloc_succeeds w.os).0 ==ℤ pos 0)) [
    | inl refused ↦ rw (refused) (nothing _ _ (λ a. refl))
    | inr allocated ↦ rw (allocated) (block _ _ w.next (fresh w.next (omega arith)) (λ a. refl))
  ]

  shared_kind :
      (kind : ℕ) (w : World S) → IsFresh w → Held w.live (SharedMutex.init os value none kind w)
  unfolding SharedMutex.init SharedMutex.check_with_cleanup call
  shared_kind kind w fresh = elim (Bool-cases ((os rwlockattr_init w.os).0 ==ℤ pos 0)) [
    | inl success ↦
        rw (success)
          (elim (Bool-cases
            ((os (rwlockattr_setkind kind) (os rwlockattr_init w.os).1).0 ==ℤ pos 0)) [
              | inl set ↦ rw (set) (
                  shared_allocated
                    (moved w (os (rwlockattr_setkind kind) (os rwlockattr_init w.os).1).1) fresh)
              | inr bad ↦ rw (bad) (nothing _ _ (λ a. refl))
            ])
    | inr bad ↦ rw (bad) (nothing _ _ (λ a. refl))
  ]

  semaphore_counted :
      (count : ℕ) (w : World S) → IsFresh w → Held w.live (Semaphore.init os value count w)
  unfolding Semaphore.init sync_init sync_check_last_error call malloc
  semaphore_counted count w fresh = elim (Bool-cases ((os malloc_succeeds w.os).0 ==ℤ pos 0)) [
    | inl refused ↦ rw (refused) (nothing _ _ (λ a. refl))
    | inr allocated ↦
        rw (allocated)
          (elim (Bool-cases
            ((os (sem_init w.next count) (os malloc_succeeds w.os).1).0 ==ℤ pos 0)) [
              | inl success ↦
                  rw (success) (block _ _ w.next (fresh w.next (omega arith)) (λ a. refl))
              | inr bad ↦ rw (bad) (block _ _ w.next (fresh w.next (omega arith)) (λ a. refl))
            ])
  ]

  -- The initialisation of a mutex, a recursive mutex, a shared mutex or a semaphore whose pointer is NULL
  -- gives a pointer to a new live block, or leaves NULL and no block more.
  pub held_lem :
      (count : ℕ) (w : World S)
      → IsFresh w
      → Held w.live (Mutex.init os value none w)
        × Held w.live (Mutex.recursive_init os value none w)
        × Held w.live (SharedMutex.init os value none count w)
        × Held w.live (Semaphore.init os value count w)
  unfolding Mutex.init Mutex.recursive_init
  held_lem count w fresh = (
    mutex_typed MutexType.errorcheck w fresh,
    mutex_typed MutexType.recursive w fresh,
    shared_kind count w fresh,
    semaphore_counted count w fresh,
  )
