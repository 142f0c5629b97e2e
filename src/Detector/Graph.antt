-- ===== src/Detector/Graph.antt =====
-- What a deadlock is: edges, walks and cycles of a wait-for graph, independent of the search.
use mathlib.Core.List.{Memᴰ}
use hawk_txn.Common.{◌≡◌, List, [], ◌∷◌, some, head?, last?, subst, sym, some_inj, ◌∙◌}
use hawk_txn.Map
use hawk_txn.Types.{TransactionId}
use hawk_txn.Detector.{Wfg}

-- `u` waits for `v`.
abbrev pub Edge : Wfg → TransactionId → TransactionId → Type 0
Edge g u v = Memᴰ v (Map.get_or u [] g)

pub data Walk (g : Wfg) (u : TransactionId) : TransactionId → Type 0 where
  one : {v : TransactionId} → Edge g u v → Walk g u v
  more : {v w : TransactionId} → Walk g u v → Edge g v w → Walk g u w

abbrev pub IsAcyclic : Wfg → Type 0
IsAcyclic g = (v : TransactionId) → ¬ Walk g v v

-- Each transaction of the list waits for the next.
abbrev pub Links : Wfg → List TransactionId → Type 0
Links g [] = Unit
Links g (x ∷ []) = Unit
Links g (x ∷ y ∷ r) = Edge g x y × Links g (y ∷ r)

-- A deadlock: each transaction waits for the next, and the last for the first.
pub record IsCycle (g : Wfg) (c : List TransactionId) : Type 0 where
  pub first : TransactionId
  pub last : TransactionId
  pub head : head? c ≡ some first
  pub end : last? c ≡ some last
  pub links : Links g c
  pub closes : Edge g last first

pub Walk-trans : {g : Wfg} {u v w : TransactionId} → Walk g u v → Walk g v w → Walk g u w
Walk-trans p (one e) = more p e
Walk-trans p (more q e) = more (Walk-trans p q) e

-- Along a linked list there is a walk from its first to its last, once it is closed.
Links-Walk :
    (g : Wfg) (x y : TransactionId) (r : List TransactionId) (l : TransactionId)
    → last? (y ∷ r) ≡ some l
    → Edge g x y
    → Links g (y ∷ r)
    → Walk g x l
Links-Walk g x y [] l e d h = subst (Walk g x) (some_inj e) (one d)
Links-Walk g x y (z ∷ r) l e d h = Walk-trans (one d) (Links-Walk g y z r l e h.0 h.1)

-- A deadlock is a closed walk.
pub IsCycle-Walk :
    (g : Wfg) (c : List TransactionId) → IsCycle g c → (v : TransactionId) × Walk g v v
IsCycle-Walk g [] h = absurd (cc (h.head))
IsCycle-Walk g (x ∷ []) h =
    let e : h.first ≡ h.last = sym (some_inj h.head) ∙ some_inj h.end in
    (h.last, one (subst (Edge g h.last) e h.closes))
IsCycle-Walk g (x ∷ y ∷ r) h =
    let w = Links-Walk g x y r h.last h.end h.links.0 h.links.1 in
    (x, more w (subst (Edge g h.last) (sym (some_inj h.head)) h.closes))
