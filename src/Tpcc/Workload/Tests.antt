-- ===== src/Tpcc/Workload/Tests.antt =====
-- Draws of tpcc_data_generator.h and turns of tpccWorkloadLoop.
use hawk_txn.Common.{ℕ, ◌+◌, ◌-◌, ◌%◌, ◌≤◌, ◌≡◌, ◌≢◌, refl, true, false, some, none, [], ltb, arith}
use hawk_txn.Common.Int.{pos}
use hawk_txn.Resource
use hawk_txn.Resource.{release_all_locks}
use hawk_txn.Transaction
use hawk_txn.Transaction.{
  TransactionManager, Outcome, get_transaction, try_execute_next_sql_statement,
}
use hawk_txn.Tpcc.Draws.{
  Doubles, TpccRandom, generate_random_int, generate_random_warehouse_id, nu_rand, generate_c_id,
  get_domain_id, in_home_range, num_warehouses,
}
use hawk_txn.Tpcc.Drawn.{other_zone}
use hawk_txn.Tpcc.Texts.{generate_last_name}
use hawk_txn.Tpcc.Workload.{TpccInput, add_workload}
use hawk_txn.Tpcc.Workload.Bounds.{InTables, workload_lem}

-- Doubles in hundredths, none of them negative.
abbrev hundredths : Doubles
hundredths = record {
  Double = ℕ;
  hundredths = λ n. n;
  uniform = λ low high raw. low + raw % (high - low + 1);
  less = ltb;
  negated = λ x. 0;
}

-- An engine that always draws the same.
abbrev same : ℕ → TpccRandom
same n = record { stream = λ i. n; taken = 0 }

c_id_drawn : generate_c_id (same 5000) ≡ some (2265, record { stream = λ i. 5000; taken = 2 })
unfolding generate_c_id nu_rand generate_random_int
c_id_drawn = refl

last_name_of_371 : generate_last_name 371 (same 0) ≡ some ("PRICALLYOUGHT", same 0)
unfolding generate_last_name
last_name_of_371 = refl

abbrev manager : TransactionManager
manager = Transaction.init 1 (Resource.init 1)

last_warehouse : in_home_range 1 (1 + 1279 % num_warehouses) ≡ false
unfolding in_home_range
last_warehouse = refl

workload_lem_example :
    (input : TpccInput ℕ) × (tm' : TransactionManager) × (g' : TpccRandom) × (o : Outcome)
    × (add_workload hundredths 1 1 manager (same 1279) ≡ some ((input, tm'), g'))
    × InTables 1 input
    × (try_execute_next_sql_statement (pos 0) manager.next_transaction_id tm' ≡ some o)
    × (o.answer ≡ true)
    × (o.sent ≡ [])
    × (get_transaction o.manager manager.next_transaction_id ≡ none)
    × (o.manager.resource_manager
        ≡ (release_all_locks manager.resource_manager manager.next_transaction_id).0)
workload_lem_example =
    workload_lem hundredths 1 1 manager (same 1279) (pos 0) (omega arith) (omega arith)
      (λ j. (0, omega arith, last_warehouse))

other_zone_example :
    (w : ℕ) × (g' : TpccRandom) × (generate_random_warehouse_id hundredths 1 100 (same 0)
      ≡ some (w, g'))
    × (970 + 1 ≤ w → w ≤ 980 → get_domain_id 98 ≢ get_domain_id 100)
other_zone_example = other_zone hundredths 1 100 98 (same 0) (omega arith) (omega arith) refl
