-- ===== src/Base/Maybe.antt =====
-- `?` on options, and the checked arithmetic that yields them.
use Prim.Native.Nat.{ℕ, ◌+◌, ◌-◌, ◌^◌}
use mathlib.Core.Option.{Option, none, some}
use spl_rust.Base.Tests.{ltb, if◌then◌else◌}

infixl 5 ◌>>=◌
abbrev pub ◌>>=◌ {ℓ κ} : {A : Type ℓ} {B : Type κ} → Option A → (A → Option B) → Option B
none >>= f = none
some a >>= f = f a

-- `a.checked_sub(b)`
abbrev pub checked_sub : ℕ → ℕ → Option ℕ
checked_sub a b = if ltb a b then none else some (a - b)

-- The largest `usize` and `u64`: the targets that the crates ship on have 64-bit words.
abbrev pub word_max : ℕ
word_max = 2 ^ 64 - 1

-- `a.checked_add(b)` on 64 bits.
abbrev pub checked_add : ℕ → ℕ → Option ℕ
checked_add a b = if ltb word_max (a + b) then none else some (a + b)
