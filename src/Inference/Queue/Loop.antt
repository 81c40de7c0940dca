-- ===== src/Inference/Queue/Loop.antt =====
-- The dispatch loop: the invariant through every round, its end, and whose turn comes when.
use woolwire.Base.{
  Bool-cases, Bytes, List, Option, [], arith, bytes_dec, count, false, inl, inr, keep, length,
  length-append, none, refl, some, subst, suc, sym, true, zero, ℕ, ◌+◌, ◌<◌, ◌∙◌, ◌∷◌, ◌≡◌, ◌≤◌,
  ◌⊎◌,
}
use woolwire.Base.Maps.{lookup, Distinct, put-Distinct, delete-Distinct, sum_of}
use woolwire.Inference.Queue.{
  FairQueue, key_dec, queue_of, dispatch_head, dispatch_step, dispatch_loop, dispatch_next_locked,
  can_dispatch, is_nil,
}
use woolwire.Inference.Queue.Invariant.{Inv, dispatched-active, dispatched-total}
use woolwire.Inference.Queue.Dispatch.{
  dispatched-counts, dispatched-turns, dispatched-filled, dispatched-placed, dispatched-slots,
  dispatched-not_active, dispatched_unique,
}

dispatched-queues-Distinct :
    (q : FairQueue) (m : Bytes) (rest : List Bytes) (h : ℕ) (more : List ℕ)
    → Distinct bytes_dec q.queues
    → Distinct bytes_dec (dispatch_head q m rest (h ∷ more)).queues
unfolding dispatch_head
dispatched-queues-Distinct q m rest h [] d = delete-Distinct bytes_dec m q.queues d
dispatched-queues-Distinct q m rest h (x ∷ xs) d = put-Distinct bytes_dec m (x ∷ xs) q.queues d

dispatched-active-Distinct :
    (q : FairQueue) (m : Bytes) (rest : List Bytes) (h : ℕ) (more : List ℕ)
    → Distinct key_dec q.active_items
    → Distinct key_dec (dispatch_head q m rest (h ∷ more)).active_items
unfolding dispatch_head
dispatched-active-Distinct q m rest h [] d = put-Distinct key_dec _ h q.active_items d
dispatched-active-Distinct q m rest h (x ∷ xs) d = put-Distinct key_dec _ h q.active_items d

dispatch_head-Inv :
    (q : FairQueue) (m : Bytes) (rest : List Bytes) (h : ℕ) (more : List ℕ)
    → Inv q
    → q.rotation ≡ m ∷ rest
    → lookup bytes_dec m q.queues ≡ some (h ∷ more)
    → Inv (dispatch_head q m rest (h ∷ more))
dispatch_head-Inv q m rest h more v front items = record {
  active_total = dispatched-active q v m rest h more items;
  queued_total = dispatched-total q v m rest h more items;
  member_total = dispatched-counts q v m rest h more front items;
  turns = dispatched-turns q v m rest h more front items;
  filled = dispatched-filled q v m rest h more front items;
  queues_distinct = dispatched-queues-Distinct q m rest h more v.queues_distinct;
  active_distinct = dispatched-active-Distinct q m rest h more v.active_distinct;
  placed = dispatched-placed q v m rest h more front items;
  slots = dispatched-slots q v m rest h more front items;
  not_active = dispatched-not_active q v m rest h more front items;
  unique_waiting = dispatched_unique q v m rest h more front items;
}

-- The member at the front of the rotation has an item waiting.
pub front_items :
    (q : FairQueue) (m : Bytes) (rest : List Bytes)
    → Inv q
    → q.rotation ≡ m ∷ rest
    → (h : ℕ) × (more : List ℕ) × (lookup bytes_dec m q.queues ≡ some (h ∷ more))
unfolding count
front_items q m rest v front = go (lookup bytes_dec m q.queues) refl
  where
    go :
        (o : Option (List ℕ))
        → lookup bytes_dec m q.queues ≡ o
        → (h : ℕ) × (more : List ℕ) × (lookup bytes_dec m q.queues ≡ some (h ∷ more))
    go none e = absurd (ground (arith, v.turns m))
    go (some []) e = absurd (v.filled m e)
    go (some (h ∷ more)) e = (h, more, e)

pub dispatch_step-head :
    (q : FairQueue) (m : Bytes) (rest : List Bytes) (h : ℕ) (more : List ℕ)
    → lookup bytes_dec m q.queues ≡ some (h ∷ more)
    → dispatch_step q (m ∷ rest) ≡ dispatch_head q m rest (h ∷ more)
unfolding dispatch_step
dispatch_step-head q m rest h more e = rw e

pub dispatch_step-Inv :
    (q : FairQueue) (rot : List Bytes) → q.rotation ≡ rot → Inv q → Inv (dispatch_step q rot)
unfolding dispatch_step
dispatch_step-Inv q [] front v = v
dispatch_step-Inv q (m ∷ rest) front v =
    let (h, more, e) = front_items q m rest v front in
    subst Inv (sym (dispatch_step-head q m rest h more e))
      (dispatch_head-Inv q m rest h more v front e)

pub dispatch_loop-zero : (q : FairQueue) → dispatch_loop zero q ≡ q
unfolding dispatch_loop
dispatch_loop-zero q = refl

pub dispatch_loop-go :
    (f : ℕ) (q : FairQueue)
    → can_dispatch q ≡ true
    → dispatch_loop (suc f) q ≡ dispatch_loop f (dispatch_step q q.rotation)
unfolding dispatch_loop
dispatch_loop-go f q go = rw (go, dispatch_loop) refl

pub dispatch_loop-stop :
    (f : ℕ) (q : FairQueue) → can_dispatch q ≡ false → dispatch_loop (suc f) q ≡ q
unfolding dispatch_loop
dispatch_loop-stop f q stop = rw (stop, dispatch_loop) refl

pub dispatch_loop-Inv : (f : ℕ) (q : FairQueue) → Inv q → Inv (dispatch_loop f q)
dispatch_loop-Inv zero q v = rw (dispatch_loop-zero q) v
dispatch_loop-Inv (suc f) q v = elim (Bool-cases (can_dispatch q)) [
  | inl go ↦
      rw (dispatch_loop-go f q go)
        (dispatch_loop-Inv f (dispatch_step q q.rotation) (dispatch_step-Inv q q.rotation refl v))
  | inr stop ↦ rw (dispatch_loop-stop f q stop) v
]

pub dispatch_next_locked-Inv : (q : FairQueue) → Inv q → Inv (dispatch_next_locked q)
unfolding dispatch_next_locked
dispatch_next_locked-Inv q v = dispatch_loop-Inv (q.total_queued + length q.rotation) q v

abbrev work : FairQueue → ℕ
work q = q.total_queued + length q.rotation

dispatch_head-work :
    (q : FairQueue) (m : Bytes) (rest : List Bytes) (h : ℕ) (more : List ℕ)
    → q.rotation ≡ m ∷ rest
    → 0 < q.total_queued
    → work (dispatch_head q m rest (h ∷ more)) < work q
unfolding dispatch_head
dispatch_head-work q m rest h [] front some_queued = ground arith
dispatch_head-work q m rest h (x ∷ xs) front some_queued =
    ground (arith, length-append rest (m ∷ []))

dispatch_step-work :
    (q : FairQueue) (rot : List Bytes)
    → q.rotation ≡ rot
    → Inv q
    → can_dispatch q ≡ true
    → work (dispatch_step q rot) < work q
dispatch_step-work q [] front v go = ground arith
dispatch_step-work q (m ∷ rest) front v go =
    let (h, more, e) = front_items q m rest v front in
    rw (dispatch_step-head q m rest h more e)
      (dispatch_head-work q m rest h more front (ground arith))

dispatch_loop-stops :
    (f : ℕ) (q : FairQueue) → Inv q → work q ≤ f → can_dispatch (dispatch_loop f q) ≡ false
dispatch_loop-stops zero q v h = rw (dispatch_loop-zero q) (ground arith)
dispatch_loop-stops (suc f) q v h = elim (Bool-cases (can_dispatch q)) [
  | inl go ↦ rw (dispatch_loop-go f q go) (
      dispatch_loop-stops f (dispatch_step q q.rotation) (dispatch_step-Inv q q.rotation refl v)
        (omega (arith, dispatch_step-work q q.rotation refl v go)))
  | inr stop ↦ rw (dispatch_loop-stop f q stop) stop
]

no_queues :
    (qs : List (Bytes × List ℕ))
    → ((m : Bytes) → lookup bytes_dec m qs ≡ none)
    → sum_of length qs ≡ 0
unfolding lookup
no_queues [] h = refl
no_queues ((m, xs) ∷ qs) h = absurd (ground (arith, h m))

-- No slot is free while somebody waits.
abbrev pub IsSaturated : FairQueue → Type 0
IsSaturated q = (q.limits.max_active ≤ q.active_count) ⊎ (q.total_queued ≡ 0)

no_turns :
    (q : FairQueue) (rot : List Bytes)
    → q.rotation ≡ rot
    → is_nil rot ≡ true
    → Inv q
    → (m : Bytes) → lookup bytes_dec m q.queues ≡ none
unfolding count
no_turns q [] e n v m = ground (arith, v.turns m)
no_turns q (x ∷ xs) e n v m = cc

stopped-IsSaturated : (q : FairQueue) → Inv q → can_dispatch q ≡ false → IsSaturated q
stopped-IsSaturated q v stop = elim (Bool-cases (is_nil q.rotation)) [
  | inl empty ↦ inr (v.queued_total ∙ no_queues q.queues (no_turns q q.rotation refl empty v))
  | inr more ↦ ground arith
]

pub dispatch_next_locked-IsSaturated :
    (q : FairQueue) → Inv q → IsSaturated (dispatch_next_locked q)
unfolding dispatch_next_locked
dispatch_next_locked-IsSaturated q v =
    stopped-IsSaturated _ (dispatch_loop-Inv (work q) q v)
      (dispatch_loop-stops (work q) q v (omega arith))

dispatch_step-counts :
    (q : FairQueue) (rot : List Bytes)
    → ((dispatch_step q rot).limits ≡ q.limits)
      × ((dispatch_step q rot).active_count ≤ q.active_count + 1)
      × ((dispatch_step q rot).total_queued ≤ q.total_queued)
      × ((dispatch_step q rot).closed ≡ q.closed)
      × ((dispatch_step q rot).next ≡ q.next)
dispatch_step-counts q [] = unfold dispatch_step in (refl, omega arith, omega arith, refl, refl)
dispatch_step-counts q (m ∷ rest) = go (queue_of q m) refl
  where
    go :
        (xs : List ℕ)
        → queue_of q m ≡ xs
        → ((dispatch_step q (m ∷ rest)).limits ≡ q.limits)
          × ((dispatch_step q (m ∷ rest)).active_count ≤ q.active_count + 1)
          × ((dispatch_step q (m ∷ rest)).total_queued ≤ q.total_queued)
          × ((dispatch_step q (m ∷ rest)).closed ≡ q.closed)
          × ((dispatch_step q (m ∷ rest)).next ≡ q.next)
    go [] e = unfold dispatch_step dispatch_head in ground arith
    go (h ∷ []) e = unfold dispatch_step dispatch_head in ground arith
    go (h ∷ x ∷ xs) e = unfold dispatch_step dispatch_head in ground arith

-- The loop changes no limit, and a dispatch adds a slot only below the limit.
pub dispatch_loop-counts :
    (f : ℕ) (q : FairQueue) (n : ℕ)
    → q.active_count ≤ n
    → q.limits.max_active ≤ n
    → ((dispatch_loop f q).active_count ≤ n)
      × ((dispatch_loop f q).total_queued ≤ q.total_queued)
      × ((dispatch_loop f q).limits ≡ q.limits)
      × ((dispatch_loop f q).closed ≡ q.closed)
      × ((dispatch_loop f q).next ≡ q.next)
dispatch_loop-counts zero q n h k = rw (dispatch_loop-zero q) (h, omega arith, refl, refl, refl)
dispatch_loop-counts (suc f) q n h k = elim (Bool-cases (can_dispatch q)) [
  | inl go ↦
      let (l, a, t, c, x) = dispatch_step-counts q q.rotation in
      rw (dispatch_loop-go f q go) (
        ground (
          arith,
          dispatch_loop-counts f (dispatch_step q q.rotation) n (ground arith) (ground arith),
        ))
  | inr stop ↦ rw (dispatch_loop-stop f q stop) (h, omega arith, refl, refl, refl)
]

-- What every dispatch keeps, the loop keeps.
pub dispatch_loop_keeps {ℓ} :
    (P : FairQueue → Type ℓ)
    → ((q : FairQueue) (m : Bytes) (rest : List Bytes) (h : ℕ) (more : List ℕ)
        → Inv q
        → lookup bytes_dec m q.queues ≡ some (h ∷ more)
        → P q
        → P (dispatch_head q m rest (h ∷ more)))
    → (f : ℕ) (q : FairQueue) → Inv q
    → P q
    → P (dispatch_loop f q)
dispatch_loop_keeps P keep zero q v p = rw (dispatch_loop-zero q) p
dispatch_loop_keeps P keep (suc f) q v p = elim (Bool-cases (can_dispatch q)) [
  | inl go ↦ rw (dispatch_loop-go f q go) (
      dispatch_loop_keeps P keep f (dispatch_step q q.rotation)
        (dispatch_step-Inv q q.rotation refl v) (round q.rotation refl))
  | inr stop ↦ rw (dispatch_loop-stop f q stop) p
]
  where
    round : (rot : List Bytes) → q.rotation ≡ rot → P (dispatch_step q rot)
    round [] e = unfold dispatch_step in p
    round (m ∷ rest) e =
        let (h, more, i) = front_items q m rest v e in
        subst P (sym (dispatch_step-head q m rest h more i)) (keep q m rest h more v i p)

pub dispatch_next_locked_keeps {ℓ} :
    (P : FairQueue → Type ℓ)
    → ((q : FairQueue) (m : Bytes) (rest : List Bytes) (h : ℕ) (more : List ℕ)
        → Inv q
        → lookup bytes_dec m q.queues ≡ some (h ∷ more)
        → P q
        → P (dispatch_head q m rest (h ∷ more)))
    → (q : FairQueue) → Inv q
    → P q
    → P (dispatch_next_locked q)
unfolding dispatch_next_locked
dispatch_next_locked_keeps P keep q v p = dispatch_loop_keeps P keep (work q) q v p
