-- ===== src/Transaction.antt =====
-- The outputs of fuel_tx and the resources of the client's inputs, as far as the client makes them
-- or takes them apart. Identifiers and addresses are the numbers whose 32 bytes they are.
use fuels_rs.Prelude.{ℕ}

pub data Output : Type 0 where
  contract : ℕ → Output
  coin : ℕ → ℕ → ℕ → Output
  change : ℕ → ℕ → ℕ → Output
  variable : ℕ → ℕ → ℕ → Output
