-- ===== src/Transaction/Begun.antt =====
-- The statements that TransactionManager.cpp draws by RandomGenerators.cpp for a transaction.
use hawk_txn.Common.{
  ℕ, zero, suc, ◌+◌, ◌≤◌, ◌≡◌, refl, ◌∙◌, Bool, some, List, [], ◌∷◌, All, length, arith, ==_refl,
}
use hawk_txn.Map.{find?-assign}
use hawk_txn.Types.{
  TransactionId, ResourceId, NodeId, SqlStatement, total_resources, num_nodes, get_owner_node_id,
}
use hawk_txn.Random.{
  Engine, Drawing, ◌>>=◌, ret, advance, get_random_int, get_exponential_int, draw_below,
}
use hawk_txn.Random.Outcomes.{Ends, Within, then-Ends, ret-Ends}
use hawk_txn.Transaction.{
  Transaction, TransactionManager, begin_transaction, generate_random_sql_statements,
  get_next_transaction_id, get_transaction,
}

abbrev pub min_sqls_per_transaction : ℕ
min_sqls_per_transaction = 10

abbrev pub max_sqls_per_transaction : ℕ
max_sqls_per_transaction = 50

-- The draws of generateRandomSQLStatements: resources, and whether to lock them exclusively.
unfoldable pub draw_requests : (ℕ → Bool) → ℕ → Drawing (List (ResourceId × Bool))
draw_requests below zero = ret []
draw_requests below (suc count) = do
  r ← get_random_int 1 total_resources
  x ← draw_below below
  rest ← draw_requests below count
  ret ((r, x) ∷ rest)

-- beginTransaction with its draws; the first number of statements is not used.
unfoldable pub begin_random :
    (ℕ → Bool) → TransactionManager → Drawing (TransactionManager × Transaction)
unfolding begin_transaction
begin_random below tm = do
  unused ← get_exponential_int min_sqls_per_transaction max_sqls_per_transaction
  count ← get_exponential_int min_sqls_per_transaction max_sqls_per_transaction
  requests ← draw_requests below count
  ret (begin_transaction requests tm)

exponential-Ends :
    (low high : ℕ) (g : Engine) (s : ℕ → ℕ)
    → g.stream ≡ s
    → low ≤ high
    → Ends (Within low high) s (get_exponential_int low high g)
unfolding get_exponential_int
exponential-Ends low high g s e h = ret-Ends _ (advance g) e (ground (arith, h), ground (arith, h))

random-Ends :
    (low high : ℕ) (g : Engine) (s : ℕ → ℕ)
    → g.stream ≡ s
    → low ≤ high
    → Ends (Within low high) s (get_random_int low high g)
unfolding get_random_int
random-Ends low high g s e h = ret-Ends _ (advance g) e (omega arith, omega arith)

below-Ends :
    (below : ℕ → Bool) (g : Engine) (s : ℕ → ℕ)
    → g.stream ≡ s
    → Ends (λ x. Unit {0}) s (draw_below below g)
unfolding draw_below
below-Ends below g s e = ret-Ends _ (advance g) e tt

-- One resource, which one of the nodes owns.
abbrev pub IsOwned : SqlStatement → Type 0
IsOwned sql = (r : ResourceId) × (sql.resources ≡ r ∷ []) × Within 1 num_nodes (get_owner_node_id r)

AreRequests : ℕ → List (ResourceId × Bool) → Type 0
AreRequests count rs = (length rs ≡ count) × All (λ p. Within 1 total_resources p.0) rs

requests-Ends :
    (below : ℕ → Bool) (count : ℕ) (g : Engine) (s : ℕ → ℕ)
    → g.stream ≡ s
    → Ends (AreRequests count) s (draw_requests below count g)
unfolding draw_requests AreRequests
requests-Ends below zero g s e = ret-Ends [] g e (refl, tt)
requests-Ends below (suc count) g s e =
    then-Ends (random-Ends 1 total_resources g s e (omega arith)) λ r g1 s1 r_in.
      then-Ends (below-Ends below g1 s s1) λ x g2 s2 _.
        then-Ends (requests-Ends below count g2 s s2)
          λ rest g3 s3 h. ret-Ends ((r, x) ∷ rest) g3 s3 (omega (arith, h.0), (r_in, h.1))

statements-IsOwned :
    (t : TransactionId) (n : NodeId) (rs : List (ResourceId × Bool))
    → All (λ p. Within 1 total_resources p.0) rs
    → (length (generate_random_sql_statements t n rs) ≡ length rs)
      × All IsOwned (generate_random_sql_statements t n rs)
unfolding generate_random_sql_statements get_owner_node_id
statements-IsOwned t n [] h = (refl, tt)
statements-IsOwned t n ((r, x) ∷ rs) h =
    let (size, owned) = statements-IsOwned t n rs h.1 in
    (omega (arith, size), ((r, refl, (omega (arith, h.0.0), omega (arith, h.0.1))), owned))

-- What beginTransaction leaves.
abbrev pub IsBegun : TransactionManager → TransactionManager × Transaction → Type 0
IsBegun tm (tm', trans) =
    (get_transaction tm' tm.next_transaction_id ≡ some trans)
    × (tm'.next_transaction_id ≡ tm.next_transaction_id + 1)
    × Within min_sqls_per_transaction max_sqls_per_transaction (length trans.statements)
    × All IsOwned trans.statements

begin_random-Ends :
    (below : ℕ → Bool) (tm : TransactionManager) (g : Engine)
    → Ends (IsBegun tm) g.stream (begin_random below tm g)
unfolding begin_random begin_transaction get_next_transaction_id AreRequests
begin_random-Ends below tm g =
    then-Ends (exponential-Ends 10 50 g g.stream refl (omega arith)) λ _ g1 s1 _.
      then-Ends (exponential-Ends 10 50 g1 g.stream s1 (omega arith)) λ count g2 s2 within.
        then-Ends (requests-Ends below count g2 g.stream s2) λ rs g3 s3 h.
          let (size, owned) = statements-IsOwned tm.next_transaction_id tm.node_id rs h.1 in
          ret-Ends (begin_transaction rs tm) g3 s3 (
            find?-assign tm.next_transaction_id tm.next_transaction_id _ tm.active_transactions
                ∙ rw (==_refl tm.next_transaction_id) refl,
            refl,
            (omega (arith, size, h.0, within.0), omega (arith, size, h.0, within.1)),
            owned,
          )

-- Whatever is drawn, beginTransaction ends; the new transaction is active under the next id, which
-- then counts up, and has 10 to 50 statements, each on one resource that one of the 128 nodes owns.
pub begin_random_lem :
    (below : ℕ → Bool) (tm : TransactionManager) (g : Engine)
    → (tm' : TransactionManager) × (trans : Transaction) × (g' : Engine) × (begin_random below tm g
        ≡ some ((tm', trans), g'))
      × (get_transaction tm' tm.next_transaction_id ≡ some trans)
      × (tm'.next_transaction_id ≡ tm.next_transaction_id + 1)
      × Within min_sqls_per_transaction max_sqls_per_transaction (length trans.statements)
      × All IsOwned trans.statements
begin_random_lem below tm g =
    let e = begin_random-Ends below tm g in
    let (active, next, size, owned) = e.holds in
    (e.value.0, e.value.1, e.rest, e.ends, active, next, size, owned)
