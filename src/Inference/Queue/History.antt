-- ===== src/Inference/Queue/History.antt =====
-- The queue over any history of calls.
use woolwire.Base.{Bool, Bytes, arith, if_cases, inl, inr, map, refl, true, ℕ, ◌∙◌, ◌≡◌, ◌≤◌}
use woolwire.Inference.Limits.{RawLimits, normalize_limits}
use woolwire.Inference.Queue.{
  FairQueue, new_fair_queue, enqueue_locked, enqueue_for, start_now, submit, claim_abort,
  remove_locked, finish, cancel, cancel_member, cancel_all, all_queued, close, set_limits,
}
use woolwire.Inference.Queue.Invariant.{Inv}
use woolwire.Inference.Queue.Loop.{IsSaturated, dispatch_next_locked-IsSaturated}
use woolwire.Inference.Queue.Steps.{new_fair_queue-Inv}
use woolwire.Inference.Queue.Methods.{
  Allocated, submit_cases, cancel_cases, finish_cases, drained-Inv, cancel_member-drained,
  submit-Inv, claim_abort-Inv, finish-Inv, cancel-Inv, cancel_member-Inv, close-Inv, set_limits-Inv,
  same-Inv,
}
use woolwire.Inference.Queue.Removal.{remove_locked-keeps}
use woolwire.Inference.Queue.Bounds.{SameCounts, cancel_all-SameCounts}

-- The calls that serve requests. The end of a wait concerns an item that `Submit` made.
pub data Serve : FairQueue → FairQueue → Type 0 where
  submits : (q : FairQueue) (m r : Bytes) → Serve q (submit q m r).0
  aborts : (q : FairQueue) (h : ℕ) → Allocated q h → Serve q (claim_abort q h).0
  finishes : (q : FairQueue) (h : ℕ) → Serve q (finish q h)
  cancels : (q : FairQueue) (r m : Bytes) → Serve q (cancel q r m).0
  cancels_member : (q : FairQueue) (m : Bytes) → Serve q (cancel_member q m).0
  closes : (q : FairQueue) → Serve q (close q)

-- Any history from a new queue, with changes of the limits.
pub data Reach (l : RawLimits) : FairQueue → Type 0 where
  start : Reach l (new_fair_queue l)
  serves : {q q' : FairQueue} → Reach l q → Serve q q' → Reach l q'
  changes : {q : FairQueue} (k : RawLimits) → Reach l q → Reach l (set_limits q k)

-- A history in which the limits stay.
pub data Run (l : RawLimits) : FairQueue → Type 0 where
  fresh : Run l (new_fair_queue l)
  then_serves : {q q' : FairQueue} → Run l q → Serve q q' → Run l q'

pub Serve-Inv : {q q' : FairQueue} → Serve q q' → Inv q → Inv q'
Serve-Inv (submits q m r) v = submit-Inv q m r v
Serve-Inv (aborts q h a) v = claim_abort-Inv q h a v
Serve-Inv (finishes q h) v = finish-Inv q h v
Serve-Inv (cancels q r m) v = cancel-Inv q r m v
Serve-Inv (cancels_member q m) v = cancel_member-Inv q m v
Serve-Inv (closes q) v = close-Inv q v

-- Whatever sequence of submissions, aborted waits, finished runs, cancellations, limit changes and
-- closings a queue has seen, its counters equal what its maps hold, the rotation names exactly the
-- members with requests waiting and each once, each waiting request stands once in its own
-- member's queue and nowhere else, each slot is held by a dispatched request under its own key,
-- and no two requests that run or wait share a key.
pub Reach-Inv : (l : RawLimits) (q : FairQueue) → Reach l q → Inv q
Reach-Inv l q start = new_fair_queue-Inv l
Reach-Inv l q (serves {q = p} h s) = Serve-Inv s (Reach-Inv l p h)
Reach-Inv l q (changes {q = p} k h) = set_limits-Inv p k (Reach-Inv l p h)

submit-IsSaturated : (q : FairQueue) (m r : Bytes) → IsSaturated q → IsSaturated (submit q m r).0
unfolding start_now enqueue_locked enqueue_for
submit-IsSaturated q m r h =
    submit_cases (λ s. IsSaturated s.0) q m r (λ e. h) (λ _ _ _ d. inr (ground arith))
      (λ _ _ _ d. inl (ground arith))

shrunk-IsSaturated :
    (q q' : FairQueue)
    → q'.active_count ≡ q.active_count
    → q'.total_queued ≤ q.total_queued
    → q'.limits ≡ q.limits
    → IsSaturated q
    → IsSaturated q'
shrunk-IsSaturated q q' a t l h = ground arith

claim_abort-IsSaturated : (q : FairQueue) (h : ℕ) → IsSaturated q → IsSaturated (claim_abort q h).0
unfolding claim_abort
claim_abort-IsSaturated q h s =
    let k = remove_locked-keeps q h in
    if_cases (λ (t : FairQueue × Bool). IsSaturated t.0) (q.items h).dispatched (λ _. s)
      λ _.
        if_cases (λ (t : FairQueue × Bool). IsSaturated t.0) (q.items h).removed (λ _. s)
          λ _. shrunk-IsSaturated q (remove_locked q h) k.2 k.6 k.5 s

pub close-SameCounts : (q : FairQueue) → SameCounts (record q { closed = true }) (close q)
unfolding close
close-SameCounts q =
    let a = cancel_all-SameCounts (map (λ e. e.1) q.active_items) (record q { closed = true }) in
    let b =
      cancel_all-SameCounts (all_queued q.queues)
        (cancel_all (map (λ e. e.1) q.active_items) (record q { closed = true })) in
    (b.0 ∙ a.0, b.1 ∙ a.1, b.2 ∙ a.2, b.3 ∙ a.3, b.4 ∙ a.4)

close-IsSaturated : (q : FairQueue) → IsSaturated q → IsSaturated (close q)
close-IsSaturated q s =
    let c = close-SameCounts q in shrunk-IsSaturated q (close q) c.0 (omega (arith, c.1)) c.3 s

set_limits-IsSaturated : (q : FairQueue) (k : RawLimits) → Inv q → IsSaturated (set_limits q k)
unfolding set_limits
set_limits-IsSaturated q k v =
    dispatch_next_locked-IsSaturated _ (same-Inv q (normalize_limits k) q.closed v)

Serve-IsSaturated : {q q' : FairQueue} → Serve q q' → Inv q → IsSaturated q → IsSaturated q'
Serve-IsSaturated (submits q m r) v s = submit-IsSaturated q m r s
Serve-IsSaturated (aborts q h a) v s = claim_abort-IsSaturated q h s
Serve-IsSaturated (finishes q h) v s =
    finish_cases IsSaturated q h v (λ e w. dispatch_next_locked-IsSaturated _ w) (λ e. s)
Serve-IsSaturated (cancels q r m) v s =
    cancel_cases (λ t. IsSaturated t.0) q r m v (λ h _. s)
      (λ h w _. dispatch_next_locked-IsSaturated _ w) s
Serve-IsSaturated (cancels_member q m) v s =
    rw (cancel_member-drained q m) (dispatch_next_locked-IsSaturated _ (drained-Inv q m v))
Serve-IsSaturated (closes q) v s = close-IsSaturated q s

-- After any history a queue leaves no slot idle while a request waits: either as many requests run
-- as the limits allow, or nothing is queued.
pub Reach-IsSaturated : (l : RawLimits) (q : FairQueue) → Reach l q → IsSaturated q
unfolding new_fair_queue
Reach-IsSaturated l q start = inr refl
Reach-IsSaturated l q (serves {q = p} h s) =
    Serve-IsSaturated s (Reach-Inv l p h) (Reach-IsSaturated l p h)
Reach-IsSaturated l q (changes {q = p} k h) = set_limits-IsSaturated p k (Reach-Inv l p h)
