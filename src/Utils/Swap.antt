-- ===== src/Utils/Swap.antt =====
-- src/rbc/utils/swap.h: the exchange of two values. The memory is a list of bytes, a pointer an index of
-- it, and `none` an access outside of it.
pub mod Memory
pub mod Exchange
mod Tests
use rubidium_c.Prelude.{
  ℕ, zero, suc, ◌+◌, Bool, ◌==◌, leb, if◌then◌else◌, Option, none, some, List, length, take, drop,
  get_elem?, ◌>>=◌, store, memcpy,
}

-- The bytes that are read by a copy of `size` bytes.
abbrev pub read : List ℕ → ℕ → ℕ → Option (List ℕ)
read memory ptr size =
    if leb (ptr + size) (length memory) then some (take size (drop ptr memory)) else none

-- With the storage that the compiler or malloc gives: a copy out of the memory, a move in it, and a
-- copy back.
unfoldable pub swap_stored : List ℕ → ℕ → ℕ → ℕ → Option (List ℕ)
swap_stored memory lhs rhs size = read memory lhs size >>= λ storage.
    read memory rhs size >>= λ moved.
    memcpy memory lhs moved size >>= λ half. memcpy half rhs storage size

-- RBC_SWAP_BYTE(memory[lhs], memory[rhs])
abbrev pub swap_byte : List ℕ → ℕ → ℕ → Option (List ℕ)
swap_byte memory lhs rhs = get_elem? memory lhs >>= λ t.
    get_elem? memory rhs >>= λ y. store memory lhs y >>= λ half. store half rhs t

-- Without storage, byte by byte; `size` is what is left to do.
unfoldable pub swap_bytes : List ℕ → ℕ → ℕ → ℕ → Option (List ℕ)
swap_bytes memory lhs rhs zero = some memory
swap_bytes memory lhs rhs (suc size) =
    swap_byte memory lhs rhs >>= λ next. swap_bytes next (lhs + 1) (rhs + 1) size

-- `has_storage` is whether malloc gives the storage with MSVC; other compilers always have it.
unfoldable pub swap_impl : Bool → List ℕ → ℕ → ℕ → ℕ → Option (List ℕ)
swap_impl has_storage memory lhs rhs size =
    if lhs == rhs
    then some memory
    else if has_storage
    then swap_stored memory lhs rhs size
    else swap_bytes memory lhs rhs size

-- With GCC and its like the values themselves are exchanged.
unfoldable pub swap {ℓ} : {A : Type ℓ} → A → A → A × A
swap lhs rhs = let t = lhs in (rhs, t)
