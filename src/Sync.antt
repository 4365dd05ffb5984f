-- ===== src/Sync.antt =====
-- src/rbc/sync over POSIX threads, and in Windows over those of Windows.
pub mod World
pub mod Impl
pub mod Mutex
pub mod RecursiveMutex
pub mod LockGuard
pub mod SharedMutex
pub mod Semaphore
pub mod CondVar
pub mod Barrier
pub mod Spinlock
pub mod Tls
pub mod Once
pub mod ConditionMutex
pub mod Thread
pub mod Windows
pub mod Held
pub mod Lifecycle
mod Tests
