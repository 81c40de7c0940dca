-- ===== src/Inference/Queue/Capacity.antt =====
-- Under fixed limits no history passes one of them.
use woolwire.Base.{
  Bool, Bytes, [], arith, bytes_dec, false, if_cases, leb, length-append, true, ℕ, ◌++◌, ◌∷◌, ◌≡◌,
}
use woolwire.Base.Maps.{lookup, lookup-put}
use woolwire.Inference.Limits.{RawLimits}
use woolwire.Inference.Queue.{
  FairQueue, new_fair_queue, queue_of, queued_count, enqueue_locked, enqueue_for, allocate,
  start_now, submit, claim_abort, remove_locked, cancel_item, cancel_active, close,
  dispatch_next_locked,
}
use woolwire.Inference.Queue.Invariant.{Inv}
use woolwire.Inference.Queue.Methods.{
  submit_cases, cancel_cases, finish_cases, release, drained, cancel_member-drained,
}
use woolwire.Inference.Queue.Bounds.{
  IsBounded, Shrinks-IsBounded, SameCounts, SameCounts-Shrinks, remove_locked-Shrinks,
  dispatch_next_locked-Shrinks, cancel_active-SameCounts, cancel_queued-Shrinks,
}
use woolwire.Inference.Queue.History.{
  Serve, submits, aborts, finishes, cancels, cancels_member, closes, Serve-Inv, Run, fresh,
  then_serves, close-SameCounts,
}
use woolwire.Inference.Queue.Steps.{new_fair_queue-Inv}

enqueue_for-IsBounded :
    (q : FairQueue) (m r k : Bytes)
    → Inv q
    → k ≡ m
    → leb q.limits.max_queued_per_member (queued_count q m) ≡ false
    → leb q.limits.max_queued_total q.total_queued ≡ false
    → IsBounded q
    → IsBounded (enqueue_for (allocate q m r) k q.next)
unfolding enqueue_for
enqueue_for-IsBounded q m r k v e a b h = record {
  slots = h.slots;
  total = ground arith;
  member = λ j. ground (
    arith,
    h.member j,
    v.member_total m,
    lookup-put bytes_dec k j (queue_of q k ++ q.next ∷ []) q.queues,
    length-append (queue_of q k) (q.next ∷ []),
  );
}

submit-IsBounded : (q : FairQueue) (m r : Bytes) → Inv q → IsBounded q → IsBounded (submit q m r).0
unfolding start_now enqueue_locked
submit-IsBounded q m r v h =
    submit_cases (λ s. IsBounded s.0) q m r (λ e. h)
      (λ _ _ _ d. record { slots = ground arith; total = h.total; member = h.member })
      (λ _ a b _. enqueue_for-IsBounded q m r _ v (ground arith) a b h)

dispatched-IsBounded : (q : FairQueue) → IsBounded q → IsBounded (dispatch_next_locked q)
dispatched-IsBounded q h =
    Shrinks-IsBounded q _ q.limits.max_active
      (dispatch_next_locked-Shrinks q q.limits.max_active h.slots (omega arith)) (omega arith) h

removed-IsBounded : (q : FairQueue) (h : ℕ) → IsBounded q → IsBounded (remove_locked q h)
removed-IsBounded q h b = Shrinks-IsBounded q _ q.active_count (remove_locked-Shrinks q h) b.slots b

same-IsBounded : (q : FairQueue) (q' : FairQueue) → SameCounts q q' → IsBounded q → IsBounded q'
same-IsBounded q q' s b =
    Shrinks-IsBounded q q' q.active_count (SameCounts-Shrinks q q' s) b.slots b

cancelled-IsBounded : (q : FairQueue) (h : ℕ) → IsBounded q → IsBounded (cancel_item q h)
cancelled-IsBounded q h b = record { slots = b.slots; total = b.total; member = b.member }

released-IsBounded : (q : FairQueue) (h : ℕ) → IsBounded q → IsBounded (release q h)
unfolding release
released-IsBounded q h b = record {
  slots = omega (arith, b.slots);
  total = b.total;
  member = b.member;
}

drained-IsBounded : (q : FairQueue) (m : Bytes) → IsBounded q → IsBounded (drained q m)
unfolding drained
drained-IsBounded q m b =
    let s = cancel_active m q.active_items (q, 0) in
    let c = same-IsBounded q s.0 (cancel_active-SameCounts m q.active_items (q, 0)) b in
    Shrinks-IsBounded s.0 _ s.0.active_count (cancel_queued-Shrinks (queue_of q m) s) c.slots c

claim_abort-IsBounded : (q : FairQueue) (h : ℕ) → IsBounded q → IsBounded (claim_abort q h).0
unfolding claim_abort
claim_abort-IsBounded q h b =
    if_cases (λ (t : FairQueue × Bool). IsBounded t.0) (q.items h).dispatched (λ _. b)
      λ _.
        if_cases (λ (t : FairQueue × Bool). IsBounded t.0) (q.items h).removed (λ _. b)
          λ _. removed-IsBounded q h b

closed-IsBounded : (q : FairQueue) → IsBounded q → IsBounded (record q { closed = true })
closed-IsBounded q b = record { slots = b.slots; total = b.total; member = b.member }

Serve-IsBounded : {q q' : FairQueue} → Serve q q' → Inv q → IsBounded q → IsBounded q'
Serve-IsBounded (submits q m r) v b = submit-IsBounded q m r v b
Serve-IsBounded (aborts q h a) v b = claim_abort-IsBounded q h b
Serve-IsBounded (finishes q h) v b =
    finish_cases IsBounded q h v
      (λ e w. cancelled-IsBounded _ h (dispatched-IsBounded _ (released-IsBounded q h b)))
      (λ e. cancelled-IsBounded q h b)
Serve-IsBounded (cancels q r m) v b =
    cancel_cases (λ s. IsBounded s.0) q r m v (λ h _. cancelled-IsBounded q h b)
      (λ h _ _. dispatched-IsBounded _ (cancelled-IsBounded _ h (removed-IsBounded q h b))) b
Serve-IsBounded (cancels_member q m) v b =
    rw (cancel_member-drained q m) (dispatched-IsBounded _ (drained-IsBounded q m b))
Serve-IsBounded (closes q) v b =
    same-IsBounded _ (close q) (close-SameCounts q) (closed-IsBounded q b)

Run-both : (l : RawLimits) (q : FairQueue) → Run l q → Inv q × IsBounded q
unfolding new_fair_queue lookup
Run-both l q fresh = (
  new_fair_queue-Inv l,
  record { slots = omega arith; total = omega arith; member = λ k. omega arith },
)
Run-both l q (then_serves {q = p} h s) =
    let (v, b) = Run-both l p h in (Serve-Inv s v, Serve-IsBounded s v b)

-- In a history without a change of limits, no more requests run than the limit allows, no more
-- wait in all than the total limit, and no member has more waiting than the limit for one member.
pub Run-IsBounded : (l : RawLimits) (q : FairQueue) → Run l q → IsBounded q
Run-IsBounded l q h = (Run-both l q h).1
