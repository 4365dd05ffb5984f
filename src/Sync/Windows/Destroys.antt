-- ===== src/Sync/Windows/Destroys.antt =====
-- What the destructors of src/rbc/sync do on Windows when they are called twice.
use rubidium_c.Prelude.{==_self, ℕ, ◌≡◌, refl, true, false, some, none}
use rubidium_c.Prelude.Int.{ℤ, pos}
use rubidium_c.Core.Error.{Error}
use rubidium_c.Core.Error.Windows.{WinCode}
use rubidium_c.Sync.World.{World, Run, done, fault, Cmd, ◌>>=◌, mark, free}
use rubidium_c.Sync.Impl.{Handle}
use rubidium_c.Sync.Windows.{WinCall, call, sync_destroy}
use rubidium_c.Sync.Windows.Mutex
use rubidium_c.Sync.Windows.RecursiveMutex
use rubidium_c.Sync.Windows.SharedMutex
use rubidium_c.Sync.Windows.CondVar
use rubidium_c.Sync.Windows.Semaphore
use rubidium_c.Sync.Windows.Barrier
use rubidium_c.Sync.Windows.Tls

-- A run that returns OK and NULL, with one block less.
pub data GivenBack {S : Type 0} (v : World S) (b : ℕ) : Run S (ℤ × Handle) → Type 0 where
  given_back :
      (w : World S)
      → ((a : ℕ) → w.live a ≡ mark v.live b false a)
      → GivenBack v b (done (pos 0, none) w)

abbrev pub twice : {S : Type 0} → (Handle → Cmd S (ℤ × Handle)) → ℕ → Cmd S (ℤ × Handle)
twice destroy b = do first ← destroy (some b); destroy first.1

module _ {S : Type 0} (os : WinCall → S → ℤ × S) (value : Error → ℤ) (last : S → WinCode) where
  -- Called twice for a live block, the destructors of a shared mutex, a condition variable, a semaphore and
  -- a thread's storage give the block back once and then do nothing; those of a mutex, a recursive mutex and a barrier use
  -- a block that is gone, or NULL.
  pub destroy_twice_lem :
      (b : ℕ) (w : World S)
      → w.live b ≡ true
      → GivenBack w b (twice (SharedMutex.destroy os value) b w)
        × GivenBack w b (twice (CondVar.destroy os value) b w)
        × GivenBack w b (twice (Semaphore.destroy os value last) b w)
        × GivenBack w b (twice (Tls.destroy os value last) b w)
        × (twice (Mutex.destroy os value) b w ≡ fault)
        × (twice (RecursiveMutex.destroy os value) b w ≡ fault)
        × (twice (Barrier.destroy os value last) b w ≡ fault)
  unfolding SharedMutex.destroy CondVar.destroy Semaphore.destroy Tls.destroy Mutex.destroy
      RecursiveMutex.destroy Barrier.destroy sync_destroy call free
  destroy_twice_lem b w alive =
      rw (alive, alive, alive)
        (
          given_back _ (λ a. refl),
          given_back _ (λ a. refl),
          given_back _ (λ a. refl),
          given_back _ (λ a. refl),
          rw (==_self b) refl,
          refl,
          refl,
        )
