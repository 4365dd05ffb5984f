-- ===== src/Sync/Impl.antt =====
-- The macros of src/rbc/sync/impl.h, as functions. `self` is the pointer `self->impl`; an operation that
-- changes it gives it back with the error code.
pub mod Laws
use rubidium_c.Prelude.{ℕ, Option, none, some, if◌then◌else◌}
use rubidium_c.Prelude.Int.{ℤ, pos, ◌==ℤ◌}
use rubidium_c.Core.Error.{Error, not_enough_memory}
use rubidium_c.Sync.World.{
  Call, get_errno, World, Run, Cmd, ◌>>=◌, ◌>>◌, pure, free, with_impl, call, malloc,
}

abbrev pub Handle : Type 0
Handle = Option ℕ

module _ {S : Type 0} (os : Call → S → ℤ × S) where
  -- RBC_SYNC_INIT, and what follows it.
  unfoldable pub sync_init : (Error → ℤ) → (ℕ → Cmd S (ℤ × Handle)) → Cmd S (ℤ × Handle)
  sync_init value rest = do
    impl ← malloc os
    elim impl [ none ↦ pure (value not_enough_memory, none) | some a ↦ rest a ]

  -- RBC_SYNC_CHECK_INIT(expr)
  unfoldable pub sync_check_init : Call → ℕ → Cmd S (ℤ × Handle)
  sync_check_init expr a = do
    err ← call os expr
    if err ==ℤ pos 0 then pure (pos 0, some a) else (free (some a) >> pure (err, none))

  -- RBC_SYNC_DESTROY(dtor)
  unfoldable pub sync_destroy : (ℕ → Call) → Handle → Cmd S (ℤ × Handle)
  sync_destroy dtor none = pure (pos 0, none)
  sync_destroy dtor (some a) = do
    err ← with_impl (some a) (λ b. call os (dtor b))
    free (some a)
    pure (err, none)

  -- RBC_SYNC_CHECK_LAST_ERROR(expr)
  unfoldable pub sync_check_last_error : Call → Cmd S ℤ
  sync_check_last_error expr = do
    err ← call os expr
    if err ==ℤ pos 0 then pure (pos 0) else call os get_errno
