-- ===== src/Receipt.antt =====
-- The receipts of fuel_tx, as far as the client takes them apart. A contract id is the number whose
-- 32 bytes it is, and every other receipt is `other`.
use fuels_rs.Prelude.{ℕ, Option, List}

-- The panic reason that the client looks for, and all others.
pub data PanicReason : Type 0 where
  contract_not_in_inputs another_reason : PanicReason

pub data Receipt : Type 0 where
  return_data : ℕ → Option (List ℕ) → Receipt
  return : ℕ → ℕ → Receipt
  log : ℕ → ℕ → ℕ → Receipt
  log_data : ℕ → ℕ → Option (List ℕ) → Receipt
  revert : ℕ → Receipt
  panic : PanicReason → Option ℕ → Receipt
  other : Receipt

-- `ContractId::zeroed()`
abbrev pub zeroed : ℕ
zeroed = 0
