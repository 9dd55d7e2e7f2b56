-- ===== src/Prelude/Int.antt =====
-- Python's `int` over the native numbers: `negsuc n` is -(n + 1).
use Prim.Native.Nat.{ℕ, suc, ◌*◌, ◌-◌}
use mathlib.Core.Bool.{Bool}
use aipcs_mcp.Prelude.Tests.{leb}

pub data ℤ : Type 0 where
  pos : ℕ → ℤ
  negsuc : ℕ → ℤ

-- `-low <= value <= high`
abbrev pub in_range : ℕ → ℕ → ℤ → Bool
in_range low high (pos n) = leb n high
in_range low high (negsuc n) = leb (suc n) low

-- A product with a positive number.
abbrev pub scale : ℕ → ℤ → ℤ
scale k (pos n) = pos (k * n)
scale k (negsuc n) = negsuc (k * suc n - 1)
