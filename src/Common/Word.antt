-- ===== src/Common/Word.antt =====
-- `u64` and `usize` arithmetic of a 64-bit target in a release build: unchecked operations wrap.
use Prim.Native.Nat.{ℕ, ◌+◌, ◌-◌, ◌*◌, ◌%◌, ◌≤◌, ◌<◌, min}
use mathlib.Core.Path.{◌≡◌}
use mathlib.Core.Option.{Option, none, some}
use native.Mathlib.Omega.{arith}
use latent_dfir.Common.Tests.{ltb, lt→ltb, le→ltb, if◌then◌else◌}

abbrev pub u64_mod : ℕ
u64_mod = 0x1_0000_0000_0000_0000

abbrev pub u64_max : ℕ
u64_max = 0xffff_ffff_ffff_ffff

abbrev pub add64 : ℕ → ℕ → ℕ
add64 a b = (a + b) % u64_mod

abbrev pub sub64 : ℕ → ℕ → ℕ
sub64 a b = (a + u64_mod - b) % u64_mod

abbrev pub mul64 : ℕ → ℕ → ℕ
mul64 a b = a * b % u64_mod

abbrev pub saturating_add : ℕ → ℕ → ℕ
saturating_add a b = min (a + b) u64_max

abbrev pub saturating_mul : ℕ → ℕ → ℕ
saturating_mul a b = min (a * b) u64_max

abbrev pub checked_add : ℕ → ℕ → Option ℕ
checked_add a b = if ltb (a + b) u64_mod then some (a + b) else none

abbrev pub checked_sub : ℕ → ℕ → Option ℕ
checked_sub a b = if ltb a b then none else some (a - b)

abbrev pub checked_mul : ℕ → ℕ → Option ℕ
checked_mul a b = if ltb (a * b) u64_mod then some (a * b) else none

pub add64-exact : (a b : ℕ) → a + b < u64_mod → add64 a b ≡ a + b
add64-exact a b h = omega arith

pub sub64-exact : (a b : ℕ) → b ≤ a → a < u64_mod → sub64 a b ≡ a - b
sub64-exact a b h k = omega arith

pub checked_add-some : (a b : ℕ) → a + b < u64_mod → checked_add a b ≡ some (a + b)
checked_add-some a b h = rw (lt→ltb (a + b) u64_mod h)

pub checked_add-none : (a b : ℕ) → u64_mod ≤ a + b → checked_add a b ≡ none
checked_add-none a b h = rw (le→ltb (a + b) u64_mod h)

pub checked_sub-some : (a b : ℕ) → b ≤ a → checked_sub a b ≡ some (a - b)
checked_sub-some a b h = rw (le→ltb a b h)

pub checked_sub-none : (a b : ℕ) → a < b → checked_sub a b ≡ none
checked_sub-none a b h = rw (lt→ltb a b h)

pub checked_mul-some : (a b : ℕ) → a * b < u64_mod → checked_mul a b ≡ some (a * b)
checked_mul-some a b h = rw (lt→ltb (a * b) u64_mod h)

pub checked_mul-none : (a b : ℕ) → u64_mod ≤ a * b → checked_mul a b ≡ none
checked_mul-none a b h = rw (le→ltb (a * b) u64_mod h)
