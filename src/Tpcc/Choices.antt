-- ===== src/Tpcc/Choices.antt =====
-- The rows that tpcc_transaction.cpp chooses, and the stock that an order leaves.
use hawk_txn.Common.{ℕ, ◌+◌, ◌-◌, ◌≤◌, ◌≡◌, ltb, arith, Bool-cases, inl, inr}
use hawk_txn.Common.Int.{pos, ◌+ℤ◌, ◌-ℤ◌}
use hawk_txn.Tpcc.Rows.{Stock}
use hawk_txn.Tpcc.Updates.{take_stock}

-- An order line leaves a stock of 10 to 109 in that range.
pub take_stock_bounds :
    (s : Stock) (n : ℕ)
    → s.s_quantity ≡ pos n
    → 10 ≤ n
    → n ≤ 109
    → (m : ℕ) × ((take_stock s).s_quantity ≡ pos m) × (10 ≤ m) × (m ≤ 109)
unfolding take_stock ◌+ℤ◌ ◌-ℤ◌
take_stock_bounds s n e low high = elim (Bool-cases (ltb n 15)) [
  | inl few ↦ (n + 95, rw e (ground (arith, few, low)), ground (arith, few), ground (arith, few))
  | inr many ↦ (n - 5, rw e (ground (arith, many, low)), ground (arith, many), ground (arith, many))
]
