-- ===== src/SafeQueue/Tests.antt =====
-- A run of SafeQueue.h.
use hawk_txn.Common.{ℕ, ◌≡◌, true, List, [], ◌∷◌, ◌++◌}
use hawk_txn.SafeQueue.Fifo.{Call, pushes, pops, tries, drains, run, pushed, fifo}

abbrev calls : List (Call ℕ)
calls = pushes 1 ∷ pops true ∷ pushes 2 ∷ pushes 3 ∷ tries ∷ drains ∷ pops true ∷ []

fifo_example : (run calls []).0 ++ (run calls []).1 ≡ [] ++ pushed calls
fifo_example = fifo calls []
