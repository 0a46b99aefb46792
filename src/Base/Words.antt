-- ===== src/Base/Words.antt =====
-- `std::size_t` and `std::uint64_t`: numbers below 2 ^ 64, with the wrap-around written out.
use Prim.Native.Nat.{ℕ, ◌+◌, ◌-◌, ◌%◌, ◌^◌, ◌<◌, ◌≤◌}
use mathlib.Core.Path.{◌≡◌}
use mathlib.Core.Logic.{◌⊎◌, inl, inr}
use native.Mathlib.Omega.{arith}
use mini_llm_runtime.Base.Tests.{ltb, if◌then◌else◌}
use native.Mathlib.Decide.{dec_lt}

abbrev pub u64_mod : ℕ
u64_mod = 2 ^ 64

-- `++x` and `--x`.
unfoldable pub inc64 : ℕ → ℕ
inc64 x = (x + 1) % u64_mod

unfoldable pub dec64 : ℕ → ℕ
dec64 x = (x + u64_mod - 1) % u64_mod

-- `x - y`, which wraps around where `y` is the greater.
unfoldable pub sub64 : ℕ → ℕ → ℕ
sub64 x y = if ltb x y then x + u64_mod - y else x - y

pub sub64-eq-sub : (x y : ℕ) → y ≤ x → sub64 x y ≡ x - y
unfolding sub64
sub64-eq-sub x y h = ground arith

pub inc64-eq-add : (x : ℕ) → x + 1 < u64_mod → inc64 x ≡ x + 1
unfolding inc64
inc64-eq-add x h = omega arith

pub dec64-eq-sub : (x : ℕ) → 0 < x → x < u64_mod → dec64 x ≡ x - 1
unfolding dec64
dec64-eq-sub x p h = omega arith

pub inc64-lt : (x : ℕ) → inc64 x < u64_mod
unfolding inc64
inc64-lt x = omega arith

pub dec64-lt : (x : ℕ) → dec64 x < u64_mod
unfolding dec64
dec64-lt x = omega arith

pub inc64-cases : (x : ℕ) → x < u64_mod → (inc64 x ≡ x + 1) ⊎ (inc64 x ≡ 0)
unfolding inc64
inc64-cases x h = elim (dec_lt (x + 1) u64_mod) [
  | yes p ↦ inl (omega arith)
  | no p ↦ inr (omega arith)
]
