-- ===== src/Sync/Lifecycle.antt =====
-- How the objects of src/rbc/sync are made and given up.
use rubidium_c.Prelude.{
  ℕ, ◌≡◌, ◌≢◌, inl, inr, refl, sym, ap, ◌∙◌, true, false, ◌==◌, if◌then◌else◌, Bool-cases, none,
  some,
}
use rubidium_c.Prelude.Int.{ℤ, pos, ◌==ℤ◌}
use rubidium_c.Core.Error.{Error, not_enough_memory}
use rubidium_c.Sync.World.{
  Call, get_errno, sem_destroy, World, Run, done, Cmd, and_then, ◌>>=◌, mark, free, call,
}
use rubidium_c.Sync.Impl.{Handle, sync_destroy}
use rubidium_c.Sync.Impl.Laws.{
  IsFresh, SameBlocks, Initialised, Initialised-Held, Held, block, nothing, Destroyed, destroyed,
  mark_self, mark_undone, check_init-Initialised, sync_destroy-Destroyed,
}
use rubidium_c.Sync.Held.{held_lem}
use rubidium_c.Sync.Mutex
use rubidium_c.Sync.RecursiveMutex
use rubidium_c.Sync.SharedMutex
use rubidium_c.Sync.Semaphore
use rubidium_c.Sync.CondVar
use rubidium_c.Sync.Barrier
use rubidium_c.Sync.Spinlock
use rubidium_c.Sync.Tls

module _ {S : Type 0} (os : Call → S → ℤ × S) where
  semaphore-Destroyed :
      (b : ℕ) (w : World S) → w.live b ≡ true → Destroyed w b (Semaphore.destroy os (some b) w)
  unfolding Semaphore.destroy call free
  semaphore-Destroyed b w alive =
      rw (alive, alive)
        (elim (Bool-cases ((os (sem_destroy b) w.os).0 ==ℤ pos 0)) [
          | inl success ↦ rw (success) (
              destroyed
                (record {
                  live = mark w.live b false;
                  next = w.next;
                  os = (os (sem_destroy b) w.os).1;
                })
                (pos 0) (λ a. refl) refl)
          | inr bad ↦ rw (bad) (
              destroyed
                (record {
                  live = mark w.live b false;
                  next = w.next;
                  os = (os get_errno (os (sem_destroy b) w.os).1).1;
                })
                (os get_errno (os (sem_destroy b) w.os).1).0 (λ a. refl) refl)
        ])

  -- Every `destroy` of an object whose block is live gives that block back, no other, once, and leaves
  -- NULL, whatever the system answers.
  pub destroy_lem :
      (b : ℕ) (w : World S)
      → w.live b ≡ true
      → Destroyed w b (Mutex.destroy os (some b) w)
        × Destroyed w b (SharedMutex.destroy os (some b) w)
        × Destroyed w b (Semaphore.destroy os (some b) w)
        × Destroyed w b (CondVar.destroy os (some b) w)
        × Destroyed w b (Barrier.destroy os (some b) w)
        × Destroyed w b (Spinlock.destroy os (some b) w)
        × Destroyed w b (Tls.destroy os (some b) w)
  unfolding Mutex.destroy SharedMutex.destroy CondVar.destroy Barrier.destroy Spinlock.destroy
      Tls.destroy
  destroy_lem b w alive = (
    sync_destroy-Destroyed os Call.mutex_destroy b w alive,
    sync_destroy-Destroyed os Call.rwlock_destroy b w alive,
    semaphore-Destroyed b w alive,
    sync_destroy-Destroyed os Call.cond_destroy b w alive,
    sync_destroy-Destroyed os Call.barrier_destroy b w alive,
    sync_destroy-Destroyed os Call.spin_destroy b w alive,
    sync_destroy-Destroyed os Call.key_delete b w alive,
  )

  module _ (value : Error → ℤ) (nonzero : value not_enough_memory ≢ pos 0) where
    -- The initialisation of a condition variable, a barrier, a spin lock or a thread's storage gives a
    -- pointer to a new live block and OK, or fails with an error code, NULL and no block more.
    pub init_lem :
        (count : ℕ) (w : World S)
        → IsFresh w
        → Initialised w (CondVar.init os value w)
          × Initialised w (Barrier.init os value count w)
          × Initialised w (Spinlock.init os value w)
          × Initialised w (Tls.init os value w)
    unfolding CondVar.init Barrier.init Spinlock.init Tls.init
    init_lem count w fresh = (
      check_init-Initialised os value nonzero Call.cond_init w fresh,
      check_init-Initialised os value nonzero (λ a. Call.barrier_init a count) w fresh,
      check_init-Initialised os value nonzero Call.spin_init w fresh,
      check_init-Initialised os value nonzero Call.key_create w fresh,
    )

  -- A run that returns with NULL and the blocks that were live before.
  pub data Restored (v : World S) : Run S (ℤ × Handle) → Type 0 where
    restored : (w : World S) (err : ℤ) → SameBlocks v w → Restored v (Run.done (err, none) w)

  -- Whatever was made is given up, and given up again.
  abbrev pub destroyed_twice :
      (Handle → Cmd S (ℤ × Handle)) → Cmd S (ℤ × Handle) → Cmd S (ℤ × Handle)
  destroyed_twice destroy init = do first ← init; second ← destroy first.1; destroy second.1

  -- A destructor: it gives a live block back, and does nothing for NULL.
  pub record IsDestructor (destroy : Handle → Cmd S (ℤ × Handle)) : Type 0 where
    pub gives_back : (b : ℕ) (w : World S) → w.live b ≡ true → Destroyed w b (destroy (some b) w)
    pub keeps_null : (w : World S) → destroy none w ≡ done (pos 0, none) w

  second_destroy :
      (destroy : Handle → Cmd S (ℤ × Handle)) (v w : World S) (b : ℕ) (run : Run S (ℤ × Handle))
      → IsDestructor destroy
      → v.live b ≡ false
      → ((a : ℕ) → w.live a ≡ mark v.live b true a)
      → Destroyed w b run
      → Restored v (and_then run (λ second. destroy second.1))
  second_destroy destroy v w b _ destructor unused more (destroyed u err less same_next) =
      rw (destructor.keeps_null u) (
        restored u (pos 0) (λ a.
          mark_undone v.live b a unused
          ∙ ap (λ x. if a == b then false else x) (sym (more a))
          ∙ sym (less a)))

  destroyed_twice-Restored :
      (destroy : Handle → Cmd S (ℤ × Handle)) (v : World S) (made_run : Run S (ℤ × Handle))
      → IsDestructor destroy
      → Held v.live made_run
      → Restored v (and_then made_run (λ first. destroy first.1 >>= λ second. destroy second.1))
  destroyed_twice-Restored destroy v _ destructor (block w err b unused more) =
      second_destroy destroy v w b (destroy (some b) w) destructor unused more
        (destructor.gives_back b w (more b ∙ mark_self v.live b true))
  destroyed_twice-Restored destroy v _ destructor (nothing w err same) =
      rw (destructor.keeps_null w, destructor.keeps_null w) (restored w (pos 0) same)

  sync_destroy-IsDestructor : (dtor : ℕ → Call) → IsDestructor (sync_destroy os dtor)
  unfolding sync_destroy
  sync_destroy-IsDestructor dtor = record {
    gives_back = sync_destroy-Destroyed os dtor;
    keeps_null = λ w. refl;
  }

  semaphore-IsDestructor : IsDestructor (Semaphore.destroy os)
  unfolding Semaphore.destroy
  semaphore-IsDestructor = record { gives_back = semaphore-Destroyed; keeps_null = λ w. refl }

  module _ (value : Error → ℤ) (nonzero : value not_enough_memory ≢ pos 0) where
    -- Each of the eight objects, its pointer NULL before, can be made, given up and given up once more:
    -- no block is freed twice or used when it is gone, and the blocks live at the end are those live
    -- before, whether or not any of the system's calls fails.
    pub lifecycle_lem :
        (count : ℕ) (w : World S)
        → IsFresh w
        → Restored w (destroyed_twice (CondVar.destroy os) (CondVar.init os value) w)
          × Restored w (destroyed_twice (Barrier.destroy os) (Barrier.init os value count) w)
          × Restored w (destroyed_twice (Spinlock.destroy os) (Spinlock.init os value) w)
          × Restored w (destroyed_twice (Tls.destroy os) (Tls.init os value) w)
          × Restored w (destroyed_twice (Mutex.destroy os) (Mutex.init os value none) w)
          × Restored w
              (destroyed_twice (RecursiveMutex.destroy os) (Mutex.recursive_init os value none) w)
          × Restored w
              (destroyed_twice (SharedMutex.destroy os) (SharedMutex.init os value none count) w)
          × Restored w (destroyed_twice (Semaphore.destroy os) (Semaphore.init os value count) w)
    unfolding CondVar.destroy Barrier.destroy Spinlock.destroy Tls.destroy Mutex.destroy
        SharedMutex.destroy RecursiveMutex.destroy
    lifecycle_lem count w fresh =
        let (cond_var, barrier, spinlock, tls) = init_lem value nonzero count w fresh in
        let (mutex, recursive, shared, semaphore) = held_lem os value count w fresh in
        let twice = λ (dtor : ℕ → Call). λ (run : Run S (ℤ × Handle)).
          destroyed_twice-Restored (sync_destroy os dtor) w run (sync_destroy-IsDestructor dtor) in
        (
          twice Call.cond_destroy (CondVar.init os value w)
              (Initialised-Held w (CondVar.init os value w) cond_var),
          twice Call.barrier_destroy (Barrier.init os value count w)
              (Initialised-Held w (Barrier.init os value count w) barrier),
          twice Call.spin_destroy (Spinlock.init os value w)
              (Initialised-Held w (Spinlock.init os value w) spinlock),
          twice Call.key_delete (Tls.init os value w)
              (Initialised-Held w (Tls.init os value w) tls),
          twice Call.mutex_destroy (Mutex.init os value none w) mutex,
          twice Call.mutex_destroy (Mutex.recursive_init os value none w) recursive,
          twice Call.rwlock_destroy (SharedMutex.init os value none count w) shared,
          destroyed_twice-Restored (Semaphore.destroy os) w (Semaphore.init os value count w)
              semaphore-IsDestructor semaphore,
        )
