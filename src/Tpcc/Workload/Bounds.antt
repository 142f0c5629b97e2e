-- ===== src/Tpcc/Workload/Bounds.antt =====
-- What a turn of tpccWorkloadLoop in DistributedDBNode.cpp draws, and what becomes of it.
use hawk_txn.Common.{
  ℕ, zero, suc, ◌≤◌, ◌≡◌, refl, true, none, some, List, [], ◌∷◌, leb, arith, All, length,
}
use hawk_txn.Common.Int.{ℤ}
use hawk_txn.Types.{NodeId}
use hawk_txn.Resource.{release_all_locks}
use hawk_txn.Transaction.{
  TransactionManager, Outcome, add_tpcc_transaction, get_next_transaction_id, get_transaction,
  new_transaction, try_execute_next_sql_statement,
}
use hawk_txn.Transaction.Serve.{tpcc_commits_at_once}
use hawk_txn.Tpcc.Draws.{Doubles, TpccRandom, num_warehouses, generate_c_id, generate_item_id}
use hawk_txn.Random.Outcomes.{Ends, Within, then-Ends, ret-Ends, Ends-mono, branch-Ends}
use hawk_txn.Tpcc.Drawn.{
  Leaves, random_int-Ends, nu_rand-Ends, random_double-Ends, random_warehouse_id-Ends,
}
use hawk_txn.Tpcc.Workload.{
  TpccInput, new_order, payment, order_status, delivery, stock_level, local_warehouse_start_id,
  local_warehouse_end_id, draw_warehouse, draw_items, draw_customer, draw_new_order,
  draw_customer_warehouse, draw_payment, draw_order_status, draw_delivery, draw_stock_level,
  draw_kind, add_workload,
}

abbrev pub Local : NodeId → ℕ → Type 0
Local n = Within (local_warehouse_start_id n) (local_warehouse_end_id n)

abbrev pub IsItem : ℕ × ℕ → Type 0
IsItem (i, quantity) = Within 1 100000 i × Within 1 10 quantity

-- Every id is one of the tables, but for the customer 0.
abbrev pub InTables : {A : Type 0} → NodeId → TpccInput A → Type 0
InTables n (new_order w d c items) =
    Local n w × Within 1 10 d × Within 1 3000 c × Within 5 15 (length items) × All IsItem items
InTables n (payment w d c_w c_d c h) =
    Local n w × Within 1 10 d × Within 1 num_warehouses c_w × Within 1 10 c_d × Within 0 3000 c
InTables n (order_status w d c) = Local n w × Within 1 10 d × Within 0 3000 c
InTables n (delivery w carrier) = Local n w × Within 1 10 carrier
InTables n (stock_level w d threshold) = Local n w × Within 1 10 d × Within 10 20 threshold

warehouse-Ends :
    (n : NodeId) (g : TpccRandom) (s : ℕ → ℕ) → g.stream ≡ s → Ends (Local n) s (draw_warehouse n g)
unfolding draw_warehouse
warehouse-Ends n g s e =
    random_int-Ends (local_warehouse_start_id n) (local_warehouse_end_id n) g s e (omega arith)

c_id-Ends : (g : TpccRandom) (s : ℕ → ℕ) → g.stream ≡ s → Ends (Within 1 3000) s (generate_c_id g)
unfolding generate_c_id
c_id-Ends g s e = nu_rand-Ends 1023 1 3000 g s e (omega arith)

customer-Ends :
    (g : TpccRandom) (s : ℕ → ℕ) → g.stream ≡ s → Ends (Within 0 3000) s (draw_customer g)
unfolding draw_customer
customer-Ends g s e = then-Ends (random_int-Ends 1 100 g s e (omega arith)) λ by_name g1 s1 _.
    branch-Ends (leb by_name 40) _ _ g1 (ret-Ends 0 g1 s1 (omega arith, omega arith))
      (Ends-mono {P = Within 1 3000} (λ c h. (omega arith, h.1)) (c_id-Ends g1 s s1))

AreItems : ℕ → List (ℕ × ℕ) → Type 0
AreItems count items = (length items ≡ count) × All IsItem items

items-Ends :
    (count : ℕ) (g : TpccRandom) (s : ℕ → ℕ)
    → g.stream ≡ s
    → Ends (AreItems count) s (draw_items count g)
unfolding draw_items generate_item_id AreItems
items-Ends zero g s e = ret-Ends [] g e (refl, tt)
items-Ends (suc count) g s e =
    then-Ends (nu_rand-Ends 8191 1 100000 g s e (omega arith)) λ i g1 s1 i_in.
      then-Ends (random_int-Ends 1 10 g1 s s1 (omega arith)) λ q g2 s2 q_in.
        then-Ends (items-Ends count g2 s s2)
          λ rest g3 s3 h. ret-Ends ((i, q) ∷ rest) g3 s3 (omega (arith, h.0), ((i_in, q_in), h.1))

module _ (doubles : Doubles) (n : NodeId) where
  open doubles use {Double, hundredths, less}

  new_order-Ends :
      (g : TpccRandom) (s : ℕ → ℕ)
      → g.stream ≡ s
      → Ends (InTables {A = Double} n) s (draw_new_order doubles n g)
  unfolding draw_new_order AreItems
  new_order-Ends g s e = then-Ends (warehouse-Ends n g s e) λ w g1 s1 w_in.
      then-Ends (random_int-Ends 1 10 g1 s s1 (omega arith)) λ d g2 s2 d_in.
        then-Ends (c_id-Ends g2 s s2) λ c g3 s3 c_in.
          then-Ends (random_int-Ends 5 15 g3 s s3 (omega arith)) λ count g4 s4 count_in.
            then-Ends (items-Ends count g4 s s4) λ items g5 s5 h.
              ret-Ends (new_order w d c items) g5 s5 (
                w_in,
                d_in,
                c_in,
                (omega (arith, h.0, count_in.0), omega (arith, h.0, count_in.1)),
                h.1,
              )

  order_status-Ends :
      (g : TpccRandom) (s : ℕ → ℕ)
      → g.stream ≡ s
      → Ends (InTables {A = Double} n) s (draw_order_status doubles n g)
  unfolding draw_order_status
  order_status-Ends g s e = then-Ends (warehouse-Ends n g s e) λ w g1 s1 w_in.
      then-Ends (random_int-Ends 1 10 g1 s s1 (omega arith)) λ d g2 s2 d_in.
        then-Ends (customer-Ends g2 s s2)
          λ c g3 s3 c_in. ret-Ends (order_status w d c) g3 s3 (w_in, d_in, c_in)

  delivery-Ends :
      (g : TpccRandom) (s : ℕ → ℕ)
      → g.stream ≡ s
      → Ends (InTables {A = Double} n) s (draw_delivery doubles n g)
  unfolding draw_delivery
  delivery-Ends g s e = then-Ends (warehouse-Ends n g s e) λ w g1 s1 w_in.
      then-Ends (random_int-Ends 1 10 g1 s s1 (omega arith))
        λ carrier g2 s2 carrier_in. ret-Ends (delivery w carrier) g2 s2 (w_in, carrier_in)

  stock_level-Ends :
      (g : TpccRandom) (s : ℕ → ℕ)
      → g.stream ≡ s
      → Ends (InTables {A = Double} n) s (draw_stock_level doubles n g)
  unfolding draw_stock_level
  stock_level-Ends g s e = then-Ends (warehouse-Ends n g s e) λ w g1 s1 w_in.
      then-Ends (random_int-Ends 1 10 g1 s s1 (omega arith)) λ d g2 s2 d_in.
        then-Ends (random_int-Ends 10 20 g2 s s2 (omega arith))
          λ t g3 s3 t_in. ret-Ends (stock_level w d t) g3 s3 (w_in, d_in, t_in)

  module _ (fuel : ℕ) (first : 1 ≤ n) (last : n ≤ 128) where
    customer_warehouse-Ends :
        (w : ℕ) (g : TpccRandom) (s : ℕ → ℕ)
        → g.stream ≡ s
        → Leaves fuel n s
        → Local n w
        → Ends (Within 1 num_warehouses) s (draw_customer_warehouse doubles fuel n w g)
    unfolding draw_customer_warehouse
    customer_warehouse-Ends w g s e leaves w_in =
        then-Ends (random_double-Ends doubles (hundredths 0) (hundredths 100) g s e) λ x g1 s1 _.
          branch-Ends (less x (hundredths 15)) _ _ g1
            (random_warehouse_id-Ends doubles fuel n g1 s s1 last leaves)
            (ret-Ends w g1 s1 (omega (arith, w_in.0), omega (arith, w_in.1, first, last)))

    payment-Ends :
        (g : TpccRandom) (s : ℕ → ℕ)
        → g.stream ≡ s
        → Leaves fuel n s
        → Ends (InTables {A = Double} n) s (draw_payment doubles fuel n g)
    unfolding draw_payment
    payment-Ends g s e leaves = then-Ends (warehouse-Ends n g s e) λ w g1 s1 w_in.
        then-Ends (random_int-Ends 1 10 g1 s s1 (omega arith)) λ d g2 s2 d_in.
          then-Ends (customer_warehouse-Ends w g2 s s2 leaves w_in) λ c_w g3 s3 c_w_in.
            then-Ends (random_int-Ends 1 10 g3 s s3 (omega arith)) λ c_d g4 s4 c_d_in.
              then-Ends (customer-Ends g4 s s4) λ c g5 s5 c_in.
                then-Ends (random_double-Ends doubles (hundredths 100) (hundredths 500000) g5 s s5)
                  λ h g6 s6 _.
                    ret-Ends (payment w d c_w c_d c h) g6 s6 (w_in, d_in, c_w_in, c_d_in, c_in)

    kind-Ends :
        (roll : ℕ) (g : TpccRandom) (s : ℕ → ℕ)
        → g.stream ≡ s
        → Leaves fuel n s
        → Ends (InTables {A = Double} n) s (draw_kind doubles fuel n roll g)
    unfolding draw_kind
    kind-Ends roll g s e leaves = branch-Ends (leb roll 45) _ _ g (new_order-Ends g s e) (
        branch-Ends (leb roll 88) _ _ g (payment-Ends g s e leaves) (
          branch-Ends (leb roll 92) _ _ g (order_status-Ends g s e)
            (branch-Ends (leb roll 96) _ _ g (delivery-Ends g s e) (stock_level-Ends g s e))))

    turn-Ends :
        (tm : TransactionManager) (g : TpccRandom)
        → Leaves fuel n g.stream
        → Ends {X = TpccInput Double × TransactionManager}
            (λ out.
              InTables n out.0
              × (out.1
                  ≡ add_tpcc_transaction
                      (new_transaction tm.next_transaction_id n [])
                      (get_next_transaction_id tm).0))
            g.stream
            (add_workload doubles fuel n tm g)
    unfolding add_workload
    turn-Ends tm g leaves =
        then-Ends (random_int-Ends 1 100 g g.stream refl (omega arith)) λ roll g1 s1 _.
          then-Ends (kind-Ends roll g1 g.stream s1 leaves)
            λ input g2 s2 h. ret-Ends (input, _) g2 s2 (h, refl)

  -- For every node 1..128 and every state of its transactions, if among any `fuel` draws of a
  -- warehouse one is out of the range of the node: a turn of tpccWorkloadLoop ends. All ids that it draws are
  -- ids of the tables, the warehouse being one of the node, but for the customer of a payment or of
  -- an order status, which can be 0. The transaction that it adds is committed by the first
  -- try, which sends nothing and takes no lock, whatever was drawn.
  pub workload_lem :
      (fuel : ℕ) (tm : TransactionManager) (g : TpccRandom) (duration : ℤ)
      → 1 ≤ n
      → n ≤ 128
      → Leaves fuel n g.stream
      → (input : TpccInput Double) × (tm' : TransactionManager) × (g' : TpccRandom) × (o : Outcome)
        × (add_workload doubles fuel n tm g ≡ some ((input, tm'), g'))
        × InTables n input
        × (try_execute_next_sql_statement duration tm.next_transaction_id tm' ≡ some o)
        × (o.answer ≡ true)
        × (o.sent ≡ [])
        × (get_transaction o.manager tm.next_transaction_id ≡ none)
        × (o.manager.resource_manager
            ≡ (release_all_locks tm.resource_manager tm.next_transaction_id).0)
  unfolding get_next_transaction_id
  workload_lem fuel tm g duration first last leaves =
      let e = turn-Ends fuel first last tm g leaves in
      let (in_tables, added) = e.holds in
      let (o, tried, answer, sent, _, gone, kept) =
        tpcc_commits_at_once duration (new_transaction tm.next_transaction_id n [])
          (get_next_transaction_id tm).0 refl refl in
      (e.value.0, e.value.1, e.rest, o, e.ends, in_tables, rw added tried, answer, sent, gone, kept)
