-- ===== src/Inference/Queue/Steps.antt =====
-- Every method keeps the invariant, and leaves no slot free while somebody waits.
use woolwire.Base.{
  Bytes, List, [], arith, bytes_dec, count, count-append, false, length, length-append, none, refl,
  subst, sym, true, ℕ, ℕ_discrete, ◌++◌, ◌+◌, ◌<◌, ◌∷◌, ◌≡◌, ◌≢◌,
}
use woolwire.Base.Maps.{
  lookup, lookup-put, put-Distinct, sum_of-put_old, sum_of-put_new, length-put_new,
}
use woolwire.Inference.Limits.{RawLimits}
use woolwire.Inference.Queue.{
  Key, FairQueue, key_dec, key_of, queued_count, queue_of, new_fair_queue, enqueue_locked,
  enqueue_for, allocate, start_now, is_duplicate, has_request, cancel_item,
}
use woolwire.Inference.Queue.Invariant.{Inv, is_waiting}

pub new_fair_queue-Inv : (l : RawLimits) → Inv (new_fair_queue l)
unfolding new_fair_queue lookup count
new_fair_queue-Inv l = record {
  active_total = refl;
  queued_total = refl;
  member_total = λ m. refl;
  turns = λ m. refl;
  filled = λ m e. cc;
  queues_distinct = tt;
  active_distinct = tt;
  placed = λ h m. ground arith;
  slots = λ k h e. cc;
  not_active = λ h w. ground arith;
  unique_waiting = λ h g w x e. ground arith;
}

pub cancel_item-Inv : (q : FairQueue) (h : ℕ) → Inv q → Inv (cancel_item q h)
cancel_item-Inv q h v = record {
  active_total = v.active_total;
  queued_total = v.queued_total;
  member_total = v.member_total;
  turns = v.turns;
  filled = v.filled;
  queues_distinct = v.queues_distinct;
  active_distinct = v.active_distinct;
  placed = λ g m. ground (arith, v.placed g m);
  slots = λ k g e. ground (arith, v.slots k g e);
  not_active = λ g w. ground (arith, v.not_active g);
  unique_waiting = λ f g w x e. ground (arith, v.unique_waiting f g);
}

-- Nobody with this key runs or waits.
abbrev pub IsNew : FairQueue → Key → Type 0
IsNew q k =
    (lookup key_dec k q.active_items ≡ none) × ((h : ℕ) → is_waiting q h ≡ true → key_of q h ≢ k)

has_request-count :
    (q : FairQueue) (r : Bytes) (hs : List ℕ) (h : ℕ)
    → has_request q r hs ≡ false
    → 0 < count ℕ_discrete h hs
    → (q.items h).request_id ≢ r
unfolding has_request count
has_request-count q r [] h e p = absurd (omega arith)
has_request-count q r (x ∷ xs) h e p = λ same. ground (arith, has_request-count q r xs h)

pub is_duplicate-IsNew :
    (q : FairQueue) (m r : Bytes) → Inv q → is_duplicate q m r ≡ false → IsNew q (m, r)
unfolding is_duplicate
is_duplicate-IsNew q m r v e =
    (ground arith, λ h w k. ground (arith, v.placed h m, has_request-count q r (queue_of q m) h))

module _ (q : FairQueue) (m r : Bytes) (v : Inv q) (fresh : IsNew q (m, r)) where
  pub start_now-Inv : Inv (start_now q m r)
  unfolding start_now
  start_now-Inv = record {
    active_total =
        ground (arith, length-put_new key_dec (m, r) q.next q.active_items fresh.0, v.active_total);
    queued_total = v.queued_total;
    member_total = v.member_total;
    turns = v.turns;
    filled = v.filled;
    queues_distinct = v.queues_distinct;
    active_distinct = put-Distinct key_dec (m, r) q.next q.active_items v.active_distinct;
    placed = λ g k. ground (arith, v.placed g k);
    slots = λ k g e. ground (arith, v.slots k g, lookup-put key_dec (m, r) k q.next q.active_items);
    not_active = λ g w. ground (
      arith,
      v.not_active g,
      fresh.1 g,
      lookup-put key_dec (m, r) (key_of q g) q.next q.active_items,
    );
    unique_waiting = λ f g w x e. ground (arith, v.unique_waiting f g);
  }

  abbrev tail : List ℕ
  tail = queue_of q m ++ q.next ∷ []

  enqueue_for-Inv : Inv (enqueue_for (allocate q m r) m q.next)
  unfolding enqueue_for count
  enqueue_for-Inv = record {
    active_total = v.active_total;
    queued_total = ground (
      arith,
      v.queued_total,
      sum_of-put_new bytes_dec length m tail q.queues,
      sum_of-put_old bytes_dec length m (queue_of q m) tail q.queues,
      length-append (queue_of q m) (q.next ∷ []),
    );
    member_total = λ k. ground (
      arith,
      v.member_total k,
      lookup-put bytes_dec m k tail q.queues,
      lookup-put bytes_dec m k (queued_count q m + 1) q.member_queued,
      length-append (queue_of q m) (q.next ∷ []),
    );
    turns = λ k. ground (
      arith,
      v.turns k,
      v.turns m,
      lookup-put bytes_dec m k tail q.queues,
      count-append bytes_dec k q.rotation (m ∷ []),
    );
    filled = λ k e. ground (
      arith,
      v.filled k,
      lookup-put bytes_dec m k tail q.queues,
      length-append (queue_of q m) (q.next ∷ []),
    );
    queues_distinct = put-Distinct bytes_dec m tail q.queues v.queues_distinct;
    active_distinct = v.active_distinct;
    placed = λ g k. ground (
      arith,
      v.placed g k,
      v.placed g m,
      lookup-put bytes_dec m k tail q.queues,
      count-append ℕ_discrete g (queue_of q m) (q.next ∷ []),
    );
    slots = λ k g e. ground (arith, v.slots k g);
    not_active = λ g w. ground (arith, v.not_active g, fresh.0);
    unique_waiting = λ f g w x e. ground (arith, v.unique_waiting f g, fresh.1 f, fresh.1 g);
  }

  allocated_member : ((allocate q m r).items q.next).member_id ≡ m
  allocated_member = ground arith

  pub enqueue_locked-Inv : Inv (enqueue_locked (allocate q m r) q.next)
  unfolding enqueue_locked
  enqueue_locked-Inv =
      subst (λ k. Inv (enqueue_for (allocate q m r) k q.next)) (sym allocated_member)
        enqueue_for-Inv
