-- ===== src/Common/Int.antt =====
-- Signed integers over the native numbers, for C's `int` and `long`: `negsuc n` is -(n + 1).
use Prim.Native.Nat.{ℕ, ◌-◌}

pub data ℤ : Type 0 where
  pos : ℕ → ℤ
  negsuc : ℕ → ℤ

-- lo <= z && z <= hi, for bounds that are not negative.
abbrev pub negate : ℕ → ℤ
negate n = elim n [ Prim.Native.Nat.zero ↦ pos 0 | Prim.Native.Nat.suc k ↦ negsuc k ]
