-- ===== src/Base/Words.antt =====
-- C integers: 64-bit and 32-bit wrap-around, alignment masks, and arrays as functions.
use Prim.Native.Nat.{ℕ, ◌+◌, ◌-◌, ◌%◌, ◌^◌}
use mathlib.Core.Path.{◌≡◌}
use native.Mathlib.Omega.{arith}
use cleon_os_jgz_yes_fork.Base.Tests.{◌==◌, if◌then◌else◌}

abbrev pub u64_mod : ℕ
u64_mod = 2 ^ 64

abbrev pub u32_mod : ℕ
u32_mod = 2 ^ 32

-- `a + b` on u64 (and usize).
abbrev pub add64 : ℕ → ℕ → ℕ
add64 a b = (a + b) % u64_mod

-- `a - b` on u64.
abbrev pub sub64 : ℕ → ℕ → ℕ
sub64 a b = (a + u64_mod - b) % u64_mod

-- `a + b` on u32.
abbrev pub add32 : ℕ → ℕ → ℕ
add32 a b = (a + b) % u32_mod

-- `v & ~(a - 1)` for a power of two `a`.
abbrev pub align_down : ℕ → ℕ → ℕ
align_down v a = v - v % a

-- `(v + a - 1) & ~(a - 1)` on u64, for a power of two `a`.
abbrev pub align_up : ℕ → ℕ → ℕ
align_up v a = align_down (add64 v (a - 1)) a

-- An array of the program, read at an index, after one write.
abbrev pub store {ℓ} : {A : Type ℓ} → (ℕ → A) → ℕ → A → ℕ → A
store f i v j = if j == i then v else f j

pub store_self {ℓ} : {A : Type ℓ} (f : ℕ → A) (i : ℕ) (v : A) → store f i v i ≡ v
store_self f i v = ground arith
