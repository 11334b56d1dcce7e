-- ===== src/Common/Int.antt =====
-- The numbers of an `int`, which the configuration may give below 0.
use os_assignment_hk.Common.{ℕ}

-- `negsuc n` is -(n + 1)
pub data ℤ : Type 0 where
  pos : ℕ → ℤ
  negsuc : ℕ → ℤ

-- the rounds of a loop `for (i = 0; i < n; i++)`
abbrev pub rounds : ℤ → ℕ
rounds (pos n) = n
rounds (negsuc n) = 0
