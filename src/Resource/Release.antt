-- ===== src/Resource/Release.antt =====
-- releaseLock and releaseAllLocks in ResourceManager.cpp: what is released, and who is notified.
use mathlib.Core.List.{Memᴰ}
use mathlib.Core.List.Memᴰ
use hawk_txn.Common.{
  ℕ, ◌≡◌, refl, inl, inr, ◌≢◌, ◌↔◌, Bool, true, false, ◌&&◌, some, none, List, [], ◌∷◌, ◌==◌,
  if◌then◌else◌, arith, is_empty, head?, elem, Bool-cases, Option-cases, sym, ap, ◌∙◌,
}
use hawk_txn.Map
use hawk_txn.Map.{
  Map, IsUnique, find?-assign, find?-erase, get_or-assign, get_or-erase, contains-assign,
  contains-erase, get_or-contains, contains-find?, contains-true, find?-contains,
}
use hawk_txn.Types.{TransactionId, ResourceId, get_owner_node_id}
use hawk_txn.Resource.{
  ResourceManager, Holders, Notification, release_lock, release_holders, release_all_locks,
  store_holders, front_notice, notify_front, notify_all, holds, get_resource_holders,
  get_resource_waiting_queue,
}

erase_absent {ℓ} : {V : Type ℓ} (k : ℕ) (m : Map V) → Map.contains k m ≡ false → Map.erase k m ≡ m
unfolding Map.erase
erase_absent k [] h = refl
erase_absent k ((i, w) ∷ m) h = ground (arith, erase_absent k m)

is_empty_eq {ℓ} : {A : Type ℓ} (xs : List A) → is_empty xs ≡ true → xs ≡ []
is_empty_eq [] h = refl
is_empty_eq (x ∷ xs) h = cc

pub get_or-store_holders :
    (r q : ResourceId) (hs : Holders) (m : Map Holders)
    → Map.get_or q [] (store_holders r hs m) ≡ (if r == q then hs else Map.get_or q [] m)
get_or-store_holders r q [] m = get_or-erase r q [] m
get_or-store_holders r q (h ∷ hs) m = get_or-assign r q [] (h ∷ hs) m

contains-release_holders :
    (t : TransactionId) (q : ResourceId) (m : Map Holders)
    → Map.contains q m ≡ false
    → Map.contains q (release_holders t m).0 ≡ false
unfolding release_holders
contains-release_holders t q [] h = refl
contains-release_holders t q ((r, hs) ∷ m) h = ground (arith, contains-release_holders t q m)

pub release_holders-IsUnique :
    (t : TransactionId) (m : Map Holders) → IsUnique m → IsUnique (release_holders t m).0
unfolding release_holders
release_holders-IsUnique t [] u = tt
release_holders-IsUnique t ((r, hs) ∷ m) u =
    ground (arith, release_holders-IsUnique t m u.1, contains-release_holders t r m u.0)

pub get_or-release_holders :
    (t : TransactionId) (q : ResourceId) (m : Map Holders)
    → IsUnique m
    → Map.get_or q [] (release_holders t m).0 ≡ Map.erase t (Map.get_or q [] m)
unfolding release_holders
get_or-release_holders t q [] u = unfold Map.erase in refl
get_or-release_holders t q ((r, hs) ∷ m) u = ground (
  arith,
  get_or-release_holders t q m u.1,
  erase_absent t hs,
  is_empty_eq (Map.erase t hs),
  get_or-contains q [] (release_holders t m).0,
  contains-release_holders t q m,
)

-- After releaseAllLocks, if no resource stands twice in the map of holders, the transaction holds
-- nothing; every other holding is as it was, and so are the queues.
pub release_all_locks_lem :
    (rm : ResourceManager) (t u : TransactionId) (q : ResourceId)
    → IsUnique rm.resource_holders
    → (holds (release_all_locks rm t).0 u q ≡ (if t == u then none else holds rm u q))
      × (get_resource_waiting_queue (release_all_locks rm t).0 q ≡ get_resource_waiting_queue rm q)
unfolding release_all_locks
release_all_locks_lem rm t u q v = (
  ap (Map.find? u) (get_or-release_holders t q rm.resource_holders v)
      ∙ find?-erase t u (get_resource_holders rm q),
  refl,
)

-- On a resource of the node, releaseLock takes the transaction's lock on it, and no other holding
-- changes.
pub release_lock_lem :
    (rm : ResourceManager) (t u : TransactionId) (r q : ResourceId)
    → get_owner_node_id r ≡ rm.node_id
    → holds (release_lock rm t r).0 u q ≡ (if r == q && t == u then none else holds rm u q)
unfolding release_lock
release_lock_lem rm t u r q own = elim (Bool-cases (Map.contains t (get_resource_holders rm r))) [
  | inl held ↦ ground (
    arith,
    get_or-store_holders r q (Map.erase t (get_resource_holders rm r)) rm.resource_holders,
    find?-erase t u (get_resource_holders rm r),
  )
  | inr free ↦ ground (arith, find?-contains t (get_resource_holders rm r))
]

-- releaseAllLocks goes through exactly the resources that the transaction holds.
elem-release_holders :
    (t : TransactionId) (q : ResourceId) (m : Map Holders)
    → IsUnique m
    → elem q (release_holders t m).1 ≡ Map.contains t (Map.get_or q [] m)
unfolding release_holders
elem-release_holders t q [] u = refl
elem-release_holders t q ((r, hs) ∷ m) u =
    ground (arith, elem-release_holders t q m u.1, get_or-contains q [] m)

mem-front_notice :
    (n : Notification) (b : Bool) (r : ResourceId) (q : List TransactionId)
    → Memᴰ n (front_notice b r q) ↔ ((n.res_id ≡ r) × (b ≡ true) × (head? q ≡ some n.trans_id))
mem-front_notice n b r [] = (λ m. absurd (Memᴰ.not-nil m), λ p. cc (p.2))
mem-front_notice n false r (w ∷ ws) = (λ m. absurd (Memᴰ.not-nil m), λ p. cc (p.1))
mem-front_notice n true r (w ∷ ws) = (
  λ m. let e = Memᴰ.eq_of_singleton m in (ap (λ x. x.res_id) e, refl, ground (arith, e)),
  λ p. Memᴰ.head (ground (arith, p)),
)

mem-notify_all :
    (rm : ResourceManager) (n : Notification) (rs : List ResourceId)
    → Memᴰ n (notify_all rm rs) ↔ (
        (elem n.res_id rs ≡ true)
        × (rm.notify ≡ true)
        × (head? (get_resource_waiting_queue rm n.res_id) ≡ some n.trans_id))
mem-notify_all rm n [] = (λ m. absurd (Memᴰ.not-nil m), λ p. cc (p.0))
mem-notify_all rm n (r ∷ rs) =
    let front = mem-front_notice n rm.notify r (get_resource_waiting_queue rm r) in
    let rest = mem-notify_all rm n rs in
    (
      λ m. elim (Memᴰ.append_cases (notify_front rm r) m) [
        | inl here ↦ let (e, on, h) = front.0 here in (ground arith, on, rw e h)
        | inr later ↦ let (e, on, h) = rest.0 later in (ground arith, on, h)
      ],
      λ (e, on, h). elim (Bool-cases (r == n.res_id)) [
        | inl same ↦
            let eq : n.res_id ≡ r = ground arith in
            Memᴰ.append_left (notify_all rm rs) (front.1 (eq, on, rw eq at h))
        | inr other ↦ Memᴰ.append_right (notify_front rm r) (rest.1 (ground arith, on, h))
      ],
    )

contains-none :
    (t : TransactionId) (hs : Holders) → (Map.contains t hs ≡ true) ↔ (Map.find? t hs ≢ none)
contains-none t hs = (
  λ c e. let (v, p) = contains-true t hs c in cc,
  λ h. elim (Option-cases (Map.find? t hs)) [
    | inl e ↦ absurd (h e)
    | inr (v, e) ↦ contains-find? t hs v e
  ],
)

-- If no resource stands twice in the map of holders, releaseAllLocks notifies, if a callback is
-- set, the front of the queue of every resource that the transaction held and on which somebody
-- waits, and nobody else.
pub release_all_locks_notifies :
    (rm : ResourceManager) (t : TransactionId) (n : Notification)
    → IsUnique rm.resource_holders
    → Memᴰ n (release_all_locks rm t).1 ↔ (
        (holds rm t n.res_id ≢ none)
        × (rm.notify ≡ true)
        × (head? (get_resource_waiting_queue rm n.res_id) ≡ some n.trans_id))
unfolding release_all_locks
release_all_locks_notifies rm t n v =
    let listed = mem-notify_all rm n (release_holders t rm.resource_holders).1 in
    let released = elem-release_holders t n.res_id rm.resource_holders v in
    let held = contains-none t (get_resource_holders rm n.res_id) in
    (
      λ m. let (e, on, h) = listed.0 m in (held.0 (sym released ∙ e), on, h),
      λ (e, on, h). listed.1 (released ∙ held.1 e, on, h),
    )
