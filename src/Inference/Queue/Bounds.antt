-- ===== src/Inference/Queue/Bounds.antt =====
-- What the methods do to the counters: no slot stays free while somebody waits, and no limit is
-- passed.
use woolwire.Base.{
  Bool-cases, Bytes, List, [], arith, bytes_dec, if_cases, inl, inr, ite, length, refl, suc, true,
  zero, ℕ, ◌+◌, ◌∙◌, ◌∷◌, ◌≡◌, ◌≤◌,
}
use woolwire.Base.Maps.{lookup-put, lookup-delete}
use woolwire.Inference.Queue.{
  Key, FairQueue, queue_of, remove_locked, store_queue, erase_item, cancel_item, cancel_active,
  cancel_queued, cancel_all, can_dispatch, dispatch_head, dispatch_step, dispatch_loop,
  dispatch_next_locked,
}
use woolwire.Inference.Queue.Removal.{unmark}
use woolwire.Inference.Queue.Loop.{dispatch_loop-zero, dispatch_loop-go, dispatch_loop-stop}

-- Nothing waits but what waited before, in at most as many slots as `n`, and the limits stay.
pub record Shrinks (n : ℕ) (q q' : FairQueue) : Type 0 where
  pub slots_le : q'.active_count ≤ n
  pub total_le : q'.total_queued ≤ q.total_queued
  pub queue_le : (k : Bytes) → length (queue_of q' k) ≤ length (queue_of q k)
  pub same_limits : q'.limits ≡ q.limits
  pub same_closed : q'.closed ≡ q.closed

pub Shrinks-trans : {n k : ℕ} {p q r : FairQueue} → Shrinks n p q → Shrinks k q r → Shrinks k p r
Shrinks-trans a b = record {
  slots_le = b.slots_le;
  total_le = omega arith;
  queue_le = λ k. omega (arith, a.queue_le k, b.queue_le k);
  same_limits = b.same_limits ∙ a.same_limits;
  same_closed = b.same_closed ∙ a.same_closed;
}

dispatch_head-Shrinks :
    (q : FairQueue) (m : Bytes) (rest : List Bytes) (xs : List ℕ)
    → queue_of q m ≡ xs
    → Shrinks (q.active_count + 1) q (dispatch_head q m rest xs)
unfolding dispatch_head
dispatch_head-Shrinks q m rest [] e = record {
  slots_le = omega arith;
  total_le = omega arith;
  same_limits = refl;
  same_closed = refl;
  queue_le = λ k. ground (arith, lookup-delete bytes_dec m k q.queues);
}
dispatch_head-Shrinks q m rest (h ∷ []) e = record {
  slots_le = omega arith;
  total_le = omega arith;
  same_limits = refl;
  same_closed = refl;
  queue_le = λ k. ground (arith, lookup-delete bytes_dec m k q.queues);
}
dispatch_head-Shrinks q m rest (h ∷ x ∷ xs) e = record {
  slots_le = omega arith;
  total_le = omega arith;
  same_limits = refl;
  same_closed = refl;
  queue_le = λ k. ground (arith, lookup-put bytes_dec m k (x ∷ xs) q.queues);
}

dispatch_step-Shrinks :
    (q : FairQueue) (rot : List Bytes) → Shrinks (q.active_count + 1) q (dispatch_step q rot)
unfolding dispatch_step
dispatch_step-Shrinks q [] = record {
  slots_le = omega arith;
  total_le = omega arith;
  same_limits = refl;
  same_closed = refl;
  queue_le = λ k. omega arith;
}
dispatch_step-Shrinks q (m ∷ rest) = dispatch_head-Shrinks q m rest (queue_of q m) refl

pub Shrinks-refl : (n : ℕ) (q : FairQueue) → q.active_count ≤ n → Shrinks n q q
Shrinks-refl n q h = record {
  slots_le = h;
  total_le = omega arith;
  same_limits = refl;
  same_closed = refl;
  queue_le = λ k. omega arith;
}

dispatch_loop-Shrinks :
    (f : ℕ) (q : FairQueue) (n : ℕ)
    → q.active_count ≤ n
    → q.limits.max_active ≤ n
    → Shrinks n q (dispatch_loop f q)
dispatch_loop-Shrinks zero q n h k = rw (dispatch_loop-zero q) (Shrinks-refl n q h)
dispatch_loop-Shrinks (suc f) q n h k = elim (Bool-cases (can_dispatch q)) [
  | inl go ↦
      let s = dispatch_step-Shrinks q q.rotation in
      rw (dispatch_loop-go f q go) (
        Shrinks-trans s (
          dispatch_loop-Shrinks f (dispatch_step q q.rotation) n (below go s)
            (ground (arith, s.same_limits))))
  | inr stop ↦ rw (dispatch_loop-stop f q stop) (Shrinks-refl n q h)
]
  where
    below :
        can_dispatch q ≡ true
        → Shrinks (q.active_count + 1) q (dispatch_step q q.rotation)
        → (dispatch_step q q.rotation).active_count ≤ n
    below go s = ground (arith, s.slots_le)

-- Dispatching fills slots up to the limit, and never past it.
pub dispatch_next_locked-Shrinks :
    (q : FairQueue) (n : ℕ)
    → q.active_count ≤ n
    → q.limits.max_active ≤ n
    → Shrinks n q (dispatch_next_locked q)
unfolding dispatch_next_locked
dispatch_next_locked-Shrinks q n h k =
    dispatch_loop-Shrinks (q.total_queued + length q.rotation) q n h k

length-erase_item-le : (h : ℕ) (xs : List ℕ) → length (erase_item h xs) ≤ length xs
unfolding erase_item
length-erase_item-le h [] = omega arith
length-erase_item-le h (x ∷ xs) = ground (arith, length-erase_item-le h xs)

store_queue-Shrinks :
    (q : FairQueue) (m : Bytes) (ys : List ℕ)
    → length ys ≤ length (queue_of q m)
    → Shrinks q.active_count q (store_queue q m ys)
unfolding store_queue
store_queue-Shrinks q m [] h = record {
  slots_le = omega arith;
  total_le = omega arith;
  same_limits = refl;
  same_closed = refl;
  queue_le = λ k. ground (arith, lookup-delete bytes_dec m k q.queues);
}
store_queue-Shrinks q m (y ∷ ys) h = record {
  slots_le = omega arith;
  total_le = omega arith;
  same_limits = refl;
  same_closed = refl;
  queue_le = λ k. ground (arith, lookup-put bytes_dec m k (y ∷ ys) q.queues);
}

unmark-Shrinks :
    (q : FairQueue) (h : ℕ) (m : Bytes) (ys : List ℕ)
    → length ys ≤ length (queue_of q m)
    → Shrinks q.active_count q (store_queue (unmark q h) m ys)
unmark-Shrinks q h m ys le =
    let s = store_queue-Shrinks (unmark q h) m ys le in
    record {
      slots_le = s.slots_le;
      total_le = omega (arith, s.total_le);
      queue_le = s.queue_le;
      same_limits = s.same_limits;
      same_closed = s.same_closed;
    }

pub remove_locked-Shrinks : (q : FairQueue) (h : ℕ) → Shrinks q.active_count q (remove_locked q h)
unfolding remove_locked
remove_locked-Shrinks q h =
    let m = (q.items h).member_id in
    if_cases (Shrinks q.active_count q) (q.items h).removed
      (λ _. Shrinks-refl q.active_count q (omega arith))
      λ _.
        unmark-Shrinks q h m (erase_item h (queue_of q m)) (length-erase_item-le h (queue_of q m))

-- A cancelled context changes nothing that is counted.
abbrev pub SameCounts : FairQueue → FairQueue → Type 0
SameCounts q q' =
    (q'.active_count ≡ q.active_count)
    × (q'.total_queued ≡ q.total_queued)
    × (q'.queues ≡ q.queues)
    × (q'.limits ≡ q.limits)
    × (q'.closed ≡ q.closed)

pub SameCounts-Shrinks : (q q' : FairQueue) → SameCounts q q' → Shrinks q.active_count q q'
SameCounts-Shrinks q q' s = record {
  slots_le = omega arith;
  total_le = omega arith;
  queue_le = λ k. ground arith;
  same_limits = s.3;
  same_closed = s.4;
}

pub cancel_active-SameCounts :
    (m : Bytes) (active : List (Key × ℕ)) (s : FairQueue × ℕ)
    → SameCounts s.0 (cancel_active m active s).0
unfolding cancel_active
cancel_active-SameCounts m [] s = (refl, refl, refl, refl, refl)
cancel_active-SameCounts m (((j, r), h) ∷ rest) s =
    ground
      (arith, cancel_active-SameCounts m rest (ite (bytes_dec j m) (cancel_item s.0 h, s.1 + 1) s))

pub cancel_all-SameCounts : (hs : List ℕ) (q : FairQueue) → SameCounts q (cancel_all hs q)
unfolding cancel_all
cancel_all-SameCounts [] q = (refl, refl, refl, refl, refl)
cancel_all-SameCounts (h ∷ hs) q = cancel_all-SameCounts hs (cancel_item q h)

pub cancel_queued-Shrinks :
    (hs : List ℕ) (s : FairQueue × ℕ) → Shrinks s.0.active_count s.0 (cancel_queued hs s).0
unfolding cancel_queued
cancel_queued-Shrinks [] s = Shrinks-refl s.0.active_count s.0 (omega arith)
cancel_queued-Shrinks (h ∷ hs) s =
    let r = remove_locked-Shrinks s.0 h in
    let c =
      SameCounts-Shrinks (remove_locked s.0 h) (cancel_item (remove_locked s.0 h) h)
        (refl, refl, refl, refl, refl) in
    let t = cancel_queued-Shrinks hs (cancel_item (remove_locked s.0 h) h, s.1 + 1) in
    weaken (Shrinks-trans (Shrinks-trans r c) t) (omega (arith, r.slots_le))
  where
    weaken : {n k : ℕ} {q q' : FairQueue} → Shrinks n q q' → n ≤ k → Shrinks k q q'
    weaken s h = record {
      slots_le = omega (arith, s.slots_le);
      total_le = s.total_le;
      queue_le = s.queue_le;
      same_limits = s.same_limits;
      same_closed = s.same_closed;
    }

-- The limits are kept: of slots, of waiting requests, and of waiting requests of one member.
pub record IsBounded (q : FairQueue) : Type 0 where
  pub slots : q.active_count ≤ q.limits.max_active
  pub total : q.total_queued ≤ q.limits.max_queued_total
  pub member : (k : Bytes) → length (queue_of q k) ≤ q.limits.max_queued_per_member

pub Shrinks-IsBounded :
    (q q' : FairQueue) (n : ℕ)
    → Shrinks n q q'
    → n ≤ q.limits.max_active
    → IsBounded q
    → IsBounded q'
Shrinks-IsBounded q q' n s h b = record {
  slots = ground (arith, s.slots_le, s.same_limits);
  total = ground (arith, s.total_le, s.same_limits, b.total);
  member = λ k. ground (arith, s.queue_le k, s.same_limits, b.member k);
}
