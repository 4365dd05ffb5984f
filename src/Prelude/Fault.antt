-- ===== src/Prelude/Fault.antt =====
-- Memory accesses that may be out of bounds: `none` is an access that C does not define.
use Prim.Native.Nat.{ℕ, ◌+◌}
use mathlib.Core.Bool.{◌&&◌}
use mathlib.Core.Option.{Option, none, some}
use mathlib.Core.List.{List, ◌++◌}
use rubidium_c.Prelude.Tests.{ltb, leb, if◌then◌else◌}
use rubidium_c.Prelude.Lists.{length, set, take, drop}

infixl 5 ◌>>=◌
abbrev pub ◌>>=◌ {ℓ κ} : {A : Type ℓ} {B : Type κ} → Option A → (A → Option B) → Option B
none >>= f = none
some a >>= f = f a

-- data[i] = v;
abbrev pub store : List ℕ → ℕ → ℕ → Option (List ℕ)
store xs i v = if ltb i (length xs) then some (set xs i v) else none

-- memcpy(dest + offset, src, n);
abbrev pub memcpy : List ℕ → ℕ → List ℕ → ℕ → Option (List ℕ)
memcpy dest offset src n =
    if leb n (length src) && leb (offset + n) (length dest)
    then some (take offset dest ++ (take n src ++ drop (offset + n) dest))
    else none
