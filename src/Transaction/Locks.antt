-- ===== src/Transaction/Locks.antt =====
-- The two records of who has which lock, the transactions' `acquiredLocks` and the ResourceManager's
-- holders, under the methods of TransactionManager.cpp.
use hawk_txn.Common.{
  ◌≤◌, ◌<◌, ◌≡◌, refl, Bool, false, Option, some, none, [], ◌==◌, arith, ==_refl, same_branches,
  Bool-cases, Option-cases, ap, sym, ◌∙◌, inl, inr,
}
use hawk_txn.Common.Int.{ℤ}
use hawk_txn.Map
use hawk_txn.Map.{
  Map, find?-assign, find?-erase, contains-assign, contains-erase, contains-find?, find?-contains,
}
use hawk_txn.Types.{TransactionId, ResourceId, LockMode, get_owner_node_id}
use hawk_txn.Resource.{ResourceManager, acquire_lock, release_all_locks, holds}
use hawk_txn.Resource.Grant.{AcquireEffect, acquire_lock_effect, foreign, granted, queued}
use hawk_txn.Resource.Exclusion.{Inv}
use hawk_txn.Resource.Release.{release_all_locks_lem}
use hawk_txn.Resource.Reach.{acquire_lock-Inv, release_all_locks-Inv}
use hawk_txn.Transaction.{
  Transaction, TransactionStatus, TransactionManager, store, get_transaction, get_transaction_locks,
  after_request, finish, abort_transaction, commit_transaction, request_local, request_remote,
}

pub record Agreement (tm : TransactionManager) : Type 0 where
  pub manager : Inv tm.resource_manager
  pub node : tm.resource_manager.node_id ≡ tm.node_id
  -- both records name the same locks on the resources of the node
  pub agree :
      (t : TransactionId) (r : ResourceId)
      → get_owner_node_id r ≡ tm.node_id
      → Map.find? r (get_transaction_locks tm t) ≡ holds tm.resource_manager t r
  -- no id is given out twice
  pub fresh :
      (t : TransactionId)
      → tm.next_transaction_id ≤ t
      → Map.contains t tm.active_transactions ≡ false

-- The locks of a transaction, read from the map.
abbrev pub locks_of : Option Transaction → Map LockMode
locks_of o = elim o [ none ↦ [] | some trans ↦ trans.acquired_locks ]

locks-eq :
    (tm : TransactionManager) (t : TransactionId)
    → get_transaction_locks tm t ≡ locks_of (get_transaction tm t)
unfolding get_transaction_locks
locks-eq tm t = refl

-- An active transaction has an id that was given out.
pub given_out :
    (tm : TransactionManager) (t : TransactionId) (trans : Transaction)
    → Agreement tm
    → get_transaction tm t ≡ some trans
    → t < tm.next_transaction_id
given_out tm t trans a h = ground (arith, contains-find? t tm.active_transactions trans, a.fresh t)

-- Writing an active transaction back, with the resources changed to match.
pub store-Agreement :
    (tm : TransactionManager) (t : TransactionId) (old new : Transaction) (rm : ResourceManager)
    → Agreement tm
    → get_transaction tm t ≡ some old
    → Inv rm
    → rm.node_id ≡ tm.node_id
    → ((r : ResourceId)
        → get_owner_node_id r ≡ tm.node_id
        → Map.find? r new.acquired_locks ≡ holds rm t r)
    → ((u : TransactionId) (r : ResourceId)
        → (t == u) ≡ false
        → holds rm u r ≡ holds tm.resource_manager u r)
    → Agreement (store t new (record tm { resource_manager = rm }))
unfolding get_transaction_locks
store-Agreement tm t old new rm a was v node mine others = record {
  manager = v;
  node = node;
  agree = λ u r own.
      ap (λ o. Map.find? r (locks_of o)) (find?-assign t u new tm.active_transactions)
      ∙ elim (Bool-cases (t == u)) [
        | inl same ↦ let e : t ≡ u = ground arith in rw same (mine r own ∙ ap (λ i. holds rm i r) e)
        | inr other ↦ rw other (a.agree u r own ∙ sym (others u r other))
      ];
  fresh = λ u le.
      contains-assign t u new tm.active_transactions
      ∙ ground (arith, a.fresh u, given_out tm t old a was);
}

finish-Agreement :
    (status : TransactionStatus) (d : ℤ) (t : TransactionId) (tm : TransactionManager)
    → Agreement tm
    → Agreement (finish status d t tm).manager
unfolding finish get_transaction_locks
finish-Agreement status d t tm a = elim (Option-cases (get_transaction tm t)) [
  | inl missing ↦ rw (missing, finish) a
  | inr (trans, there) ↦
      rw (there, finish)
        (record {
          manager = release_all_locks-Inv tm.resource_manager t a.manager;
          node = unfold release_all_locks in a.node;
          agree = λ u r own.
              ap (λ o. Map.find? r (locks_of o)) (find?-erase t u tm.active_transactions)
              ∙ elim (Bool-cases (t == u)) [
                | inl same ↦ rw same (
                    sym (
                      (release_all_locks_lem tm.resource_manager t u r a.manager.unique).0
                      ∙ rw same))
                | inr other ↦ rw other (
                    a.agree u r own
                    ∙ sym (
                        (release_all_locks_lem tm.resource_manager t u r a.manager.unique).0
                        ∙ rw other))
              ];
          fresh = λ u le. contains-erase t u tm.active_transactions (a.fresh u le);
        })
]

pub commit-Agreement :
    (d : ℤ) (t : TransactionId) (tm : TransactionManager)
    → Agreement tm
    → Agreement (commit_transaction d t tm).manager
unfolding commit_transaction
commit-Agreement d t tm a = finish-Agreement _ d t tm a

pub abort-Agreement :
    (d : ℤ) (t : TransactionId) (tm : TransactionManager)
    → Agreement tm
    → Agreement (abort_transaction d t tm).manager
unfolding abort_transaction
abort-Agreement d t tm a = finish-Agreement _ d t tm a

acquire_lock-node :
    (rm : ResourceManager) (t : TransactionId) (r : ResourceId) (mode : LockMode)
    → (acquire_lock rm t r mode).0.node_id ≡ rm.node_id
unfolding acquire_lock
acquire_lock-node rm t r mode = ground arith

module _ (rm : ResourceManager) (t : TransactionId) (r : ResourceId) (mode : LockMode) where
  effect_mine :
      (rm' : ResourceManager) (b : Bool) (trans : Transaction) (q : ResourceId)
      → AcquireEffect rm t r mode rm' b
      → Map.find? q trans.acquired_locks ≡ holds rm t q
      → Map.find? q (after_request trans r mode b).acquired_locks ≡ holds rm' t q
  effect_mine rm' b trans q (foreign away same) h = h ∙ ap (λ m. holds m t q) (sym same)
  effect_mine rm' b trans q (granted own free held rest) h =
      find?-assign r q mode trans.acquired_locks ∙ rw h (sym (held t q ∙ rw (==_refl t)))
  effect_mine rm' b trans q (queued own busy same rest) h =
      h ∙ ap (λ m. Map.find? t (Map.get_or q [] m)) (sym same)

  effect_others :
      (rm' : ResourceManager) (b : Bool) (u : TransactionId) (q : ResourceId)
      → AcquireEffect rm t r mode rm' b
      → (t == u) ≡ false
      → holds rm' u q ≡ holds rm u q
  effect_others rm' b u q (foreign away same) h = ap (λ m. holds m u q) same
  effect_others rm' b u q (granted own free held rest) h =
      held u q ∙ rw h (same_branches (r == q) (holds rm u q))
  effect_others rm' b u q (queued own busy same rest) h =
      ap (λ m. Map.find? u (Map.get_or q [] m)) same

-- A lock that the transaction's own record has is the one that the node's has.
pub own_record :
    (tm : TransactionManager) (t : TransactionId) (trans : Transaction) (q : ResourceId)
    → Agreement tm
    → get_transaction tm t ≡ some trans
    → get_owner_node_id q ≡ tm.node_id
    → Map.find? q trans.acquired_locks ≡ holds tm.resource_manager t q
unfolding get_transaction_locks
own_record tm t trans q a there own =
    ap (λ o. Map.find? q (locks_of o)) (sym there) ∙ a.agree t q own

pub request_local-Agreement :
    (t : TransactionId) (trans : Transaction) (r : ResourceId) (mode : LockMode)
    (tm : TransactionManager)
    → Agreement tm
    → get_transaction tm t ≡ some trans
    → Agreement (request_local t trans r mode tm).manager
unfolding request_local
request_local-Agreement t trans r mode tm a there =
    let effect = acquire_lock_effect tm.resource_manager t r mode in
    store-Agreement tm t trans _ (acquire_lock tm.resource_manager t r mode).0 a there
      (acquire_lock-Inv tm.resource_manager t r mode a.manager)
      (acquire_lock-node tm.resource_manager t r mode ∙ a.node)
      (λ q own.
        effect_mine tm.resource_manager t r mode _ _ trans q effect
          (own_record tm t trans q a there own))
      (λ u q other. effect_others tm.resource_manager t r mode _ _ u q effect other)

pub request_remote-Agreement :
    (t : TransactionId) (trans : Transaction) (r : ResourceId) (mode : LockMode)
    (tm : TransactionManager)
    → Agreement tm
    → get_transaction tm t ≡ some trans
    → Agreement (request_remote t trans r mode tm).manager
unfolding request_remote
request_remote-Agreement t trans r mode tm a there =
    store-Agreement tm t trans _ tm.resource_manager a there a.manager a.node
      (λ q own. own_record tm t trans q a there own) (λ u q other. refl)
