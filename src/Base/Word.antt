-- ===== src/Base/Word.antt =====
-- Go's 64-bit `int` as its bit pattern, a number below 2 ^ 64. The cgo casts between `int`,
-- `uintptr` and `size_t` keep the pattern, so they are not written.
use Prim.Native.Nat.{ℕ, ◌+◌, ◌-◌, ◌*◌, ◌/◌, ◌%◌, ◌^◌, ◌<◌}
use mathlib.Core.Path.{◌≡◌}
use native.Mathlib.Omega.{arith}
use wasmtime_go.Base.Tests.{ltb, if◌then◌else◌}

-- x << 1
abbrev pub shl1 : ℕ → ℕ
shl1 x = (x * 2) % 2 ^ 64

-- x >> 1, which copies the sign bit
abbrev pub shr1 : ℕ → ℕ
shr1 x = if ltb x (2 ^ 63) then x / 2 else x / 2 + 2 ^ 63

-- x & 1
abbrev pub and1 : ℕ → ℕ
and1 x = x % 2

-- x | 1
abbrev pub or1 : ℕ → ℕ
or1 x = x / 2 * 2 + 1

-- x + 1 and x - 1
abbrev pub inc : ℕ → ℕ
inc x = (x + 1) % 2 ^ 64

abbrev pub dec : ℕ → ℕ
dec x = (x + 2 ^ 64 - 1) % 2 ^ 64

pub dec-inc : (x : ℕ) → x < 2 ^ 64 → dec (inc x) ≡ x
dec-inc x h = omega arith
