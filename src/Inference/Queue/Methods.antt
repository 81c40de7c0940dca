-- ===== src/Inference/Queue/Methods.antt =====
-- The methods of the queue keep its invariant: admission, the end of a wait, the end of a run, and
-- the cancellations.
use woolwire.Base.{
  All, Bool, Bool-cases, Bytes, List, Option-cases, [], arith, bytes_dec, count, false, if_cases,
  inl, inr, ite, leb, ltb, map, refl, some, true, ℕ, ℕ_discrete, ◌&&◌, ◌+◌, ◌-◌, ◌<◌, ◌==◌, ◌∷◌,
  ◌≡◌, ◌⊎◌,
}
use woolwire.Base.Maps.{lookup, delete, lookup-delete, delete-Distinct, length-delete}
use woolwire.Inference.Limits.{RawLimits, Limits, normalize_limits}
use woolwire.Inference.Queue.{
  Key, FairQueue, key_dec, key_of, queue_of, enqueue_locked, allocate, start_now, queued_count,
  Admission, SubmitError, refused, started, queued, queue_closed, duplicate_request,
  member_queue_full, queue_overflow, is_duplicate, all_queued, submit, claim_abort, remove_locked,
  cancel_item, holds_slot, finish, find_request, cancel, cancel_active, cancel_queued,
  cancel_member, cancel_all, close, set_limits, dispatch_next_locked,
}
use woolwire.Inference.Queue.Invariant.{Inv, is_waiting}
use woolwire.Inference.Queue.Loop.{dispatch_next_locked-Inv}
use woolwire.Inference.Queue.Removal.{remove_locked-Inv, remove_locked-keeps}
use woolwire.Inference.Queue.Steps.{
  cancel_item-Inv, is_duplicate-IsNew, start_now-Inv, enqueue_locked-Inv,
}

-- What holds of every outcome of `Submit`, each with the tests that lead to it, holds of `Submit`.
pub submit_cases {ℓ} :
    (P : FairQueue × Admission → Type ℓ) (q : FairQueue) (m r : Bytes)
    → ((e : SubmitError) → P (q, refused e))
    → (is_duplicate q m r ≡ false
        → leb q.limits.max_queued_per_member (queued_count q m) ≡ false
        → leb q.limits.max_queued_total q.total_queued ≡ false
        → (ltb q.active_count q.limits.max_active && q.total_queued == 0) ≡ true
        → P (start_now q m r, started q.next))
    → (is_duplicate q m r ≡ false
        → leb q.limits.max_queued_per_member (queued_count q m) ≡ false
        → leb q.limits.max_queued_total q.total_queued ≡ false
        → (ltb q.active_count q.limits.max_active && q.total_queued == 0) ≡ false
        → P (enqueue_locked (allocate q m r) q.next, queued q.next))
    → P (submit q m r)
unfolding submit
submit_cases P q m r refuses starts waits =
    if_cases P _ (λ _. refuses queue_closed)
      λ _.
        if_cases P _ (λ _. refuses duplicate_request)
          λ a.
            if_cases P _ (λ _. refuses member_queue_full)
              λ b.
                if_cases P _ (λ _. refuses queue_overflow)
                  λ c. if_cases P _ (λ d. starts a b c d) (λ d. waits a b c d)

pub submit-Inv : (q : FairQueue) (m r : Bytes) → Inv q → Inv (submit q m r).0
submit-Inv q m r v =
    submit_cases (λ s. Inv s.0) q m r (λ e. v)
      (λ new _ _ _. start_now-Inv q m r v (is_duplicate-IsNew q m r v new))
      (λ new _ _ _. enqueue_locked-Inv q m r v (is_duplicate-IsNew q m r v new))

-- A pointer that some `Submit` has allocated.
abbrev pub Allocated : FairQueue → ℕ → Type 0
Allocated q h = h < q.next

pub claim_abort-Inv : (q : FairQueue) (h : ℕ) → Allocated q h → Inv q → Inv (claim_abort q h).0
unfolding claim_abort
claim_abort-Inv q h a v = ground (arith, remove_locked-Inv q h v)

unfoldable pub release : FairQueue → ℕ → FairQueue
release q h = record q {
  active_items = delete key_dec (key_of q h) q.active_items;
  active_count = q.active_count - 1;
}

release-Inv : (q : FairQueue) (h : ℕ) → holds_slot q h ≡ true → Inv q → Inv (release q h)
unfolding release
release-Inv q h held v = record {
  active_total = ground (
    arith,
    v.active_total,
    length-delete key_dec (key_of q h) h q.active_items v.active_distinct,
  );
  queued_total = v.queued_total;
  member_total = v.member_total;
  turns = v.turns;
  filled = v.filled;
  queues_distinct = v.queues_distinct;
  active_distinct = delete-Distinct key_dec (key_of q h) q.active_items v.active_distinct;
  placed = v.placed;
  slots = λ k g e. ground (arith, v.slots k g, lookup-delete key_dec (key_of q h) k q.active_items);
  not_active = λ g w.
      ground
        (arith, v.not_active g, lookup-delete key_dec (key_of q h) (key_of q g) q.active_items);
  unique_waiting = v.unique_waiting;
}

-- What holds of the two outcomes of the end of a run holds of it.
pub finish_cases {ℓ} :
    (P : FairQueue → Type ℓ) (q : FairQueue) (h : ℕ)
    → Inv q
    → (holds_slot q h ≡ true
        → Inv (release q h)
        → P (cancel_item (dispatch_next_locked (release q h)) h))
    → (holds_slot q h ≡ false → P (cancel_item q h))
    → P (finish q h)
unfolding finish release
finish_cases P q h v held lost = elim (Bool-cases (holds_slot q h)) [
  | inl e ↦ rw e (held e (freed e))
  | inr e ↦ rw e (lost e)
]
  where
    freed : holds_slot q h ≡ true → Inv (release q h)
    freed e = release-Inv q h e v

pub finish-Inv : (q : FairQueue) (h : ℕ) → Inv q → Inv (finish q h)
finish-Inv q h v =
    finish_cases Inv q h v (λ e w. cancel_item-Inv _ h (dispatch_next_locked-Inv _ w))
      (λ e. cancel_item-Inv q h v)

-- Either off its queue for good, or in it.
abbrev Settled : FairQueue → ℕ → Type 0
Settled q h = ((q.items h).removed ≡ true) ⊎ (is_waiting q h ≡ true)

find_request-count :
    (q : FairQueue) (r : Bytes) (hs : List ℕ) (h : ℕ)
    → find_request q r hs ≡ some h
    → 0 < count ℕ_discrete h hs
unfolding find_request count
find_request-count q r [] h e = cc
find_request-count q r (x ∷ xs) h e = ground (arith, find_request-count q r xs h)

pub queued-Settled :
    (q : FairQueue) (m : Bytes) (h : ℕ)
    → Inv q
    → 0 < count ℕ_discrete h (queue_of q m)
    → Settled q h
queued-Settled q m h v p = ground (arith, v.placed h m)

-- What holds of the three outcomes of `Cancel` holds of `Cancel`.
pub cancel_cases {ℓ} :
    (P : FairQueue × Bool → Type ℓ) (q : FairQueue) (r m : Bytes)
    → Inv q
    → ((h : ℕ) → lookup key_dec (m, r) q.active_items ≡ some h → P (cancel_item q h, true))
    → ((h : ℕ)
        → Inv (cancel_item (remove_locked q h) h)
        → (q.items h).member_id ≡ m
        → P (dispatch_next_locked (cancel_item (remove_locked q h) h), true))
    → P (q, false)
    → P (cancel q r m)
unfolding cancel
cancel_cases P q r m v running waiting missing =
    elim (Option-cases (lookup key_dec (m, r) q.active_items)) [
      | inr (h, e) ↦ rw (e, cancel) (running h e)
      | inl idle ↦ elim (Option-cases (find_request q r (queue_of q m))) [
        | inl e ↦ rw (idle, e, cancel) missing
        | inr (h, e) ↦
            let here = find_request-count q r (queue_of q m) h e in
            rw (idle, e, cancel)
              (waiting h
                (cancel_item-Inv _ h (remove_locked-Inv q h v (queued-Settled q m h v here)))
                (ground (arith, v.placed h m)))
      ]
    ]

pub cancel-Inv : (q : FairQueue) (r m : Bytes) → Inv q → Inv (cancel q r m).0
cancel-Inv q r m v =
    cancel_cases (λ s. Inv s.0) q r m v (λ h _. cancel_item-Inv q h v)
      (λ h w _. dispatch_next_locked-Inv _ w) v

cancel_active-Inv :
    (m : Bytes) (active : List (Key × ℕ)) (s : FairQueue × ℕ)
    → Inv s.0
    → Inv (cancel_active m active s).0
unfolding cancel_active
cancel_active-Inv m [] s v = v
cancel_active-Inv m (((j, r), h) ∷ rest) s v =
    cancel_active-Inv m rest _ (ground (arith, cancel_item-Inv s.0 h v))

pub cancel_active-keeps :
    (m : Bytes) (active : List (Key × ℕ)) (s : FairQueue × ℕ)
    → let s' = cancel_active m active s in
      ((g : ℕ)
        → ((s'.0.items g).removed ≡ (s.0.items g).removed) × (is_waiting s'.0 g ≡ is_waiting s.0 g))
      × (s'.0.queues ≡ s.0.queues)
unfolding cancel_active
cancel_active-keeps m [] s = (λ g. (refl, refl), refl)
cancel_active-keeps m (((j, r), h) ∷ rest) s =
    let ih = cancel_active-keeps m rest (ite (bytes_dec j m) (cancel_item s.0 h, s.1 + 1) s) in
    (λ g. ground (arith, ih.0 g), ground (arith, ih.1))

All-counted :
    {P : ℕ → Type 0} (hs : List ℕ) → ((h : ℕ) → 0 < count ℕ_discrete h hs → P h) → All P hs
unfolding count
All-counted [] f = tt
All-counted (h ∷ hs) f = (f h (ground arith), All-counted hs (λ g p. f g (ground arith)))

All-imp : {P Q : ℕ → Type 0} (hs : List ℕ) → ((h : ℕ) → P h → Q h) → All P hs → All Q hs
All-imp [] f a = tt
All-imp (h ∷ hs) f a = (f h a.0, All-imp hs f a.1)

pub removal-Settled :
    (q : FairQueue) (h g : ℕ)
    → Settled q h
    → Settled q g
    → Settled (cancel_item (remove_locked q h) h) g
unfolding remove_locked
removal-Settled q h g s t = ground (arith, (remove_locked-keeps q h).0 g)

cancel_queued-Inv :
    (hs : List ℕ) (s : FairQueue × ℕ) → All (Settled s.0) hs → Inv s.0 → Inv (cancel_queued hs s).0
unfolding cancel_queued
cancel_queued-Inv [] s a v = v
cancel_queued-Inv (h ∷ hs) s a v =
    cancel_queued-Inv hs (cancel_item (remove_locked s.0 h) h, s.1 + 1)
      (All-imp hs (λ g t. removal-Settled s.0 h g a.0 t) a.1)
      (cancel_item-Inv _ h (remove_locked-Inv s.0 h v a.0))

-- The state in which `CancelMember` starts to dispatch.
unfoldable pub drained : FairQueue → Bytes → FairQueue
drained q m = (cancel_queued (queue_of q m) (cancel_active m q.active_items (q, 0))).0

pub drained-Inv : (q : FairQueue) (m : Bytes) → Inv q → Inv (drained q m)
unfolding drained
drained-Inv q m v =
    cancel_queued-Inv (queue_of q m) s settled (cancel_active-Inv m q.active_items (q, 0) v)
  where
    s : FairQueue × ℕ
    s = cancel_active m q.active_items (q, 0)

    kept :
        ((g : ℕ)
          → ((s.0.items g).removed ≡ (q.items g).removed) × (is_waiting s.0 g ≡ is_waiting q g))
        × (s.0.queues ≡ q.queues)
    kept = cancel_active-keeps m q.active_items (q, 0)

    settled : All (Settled s.0) (queue_of q m)
    settled = All-counted (queue_of q m) (λ h p. ground (arith, kept.0 h, queued-Settled q m h v p))

pub cancel_member-drained :
    (q : FairQueue) (m : Bytes) → (cancel_member q m).0 ≡ dispatch_next_locked (drained q m)
unfolding cancel_member drained
cancel_member-drained q m = refl

pub cancel_member-Inv : (q : FairQueue) (m : Bytes) → Inv q → Inv (cancel_member q m).0
cancel_member-Inv q m v =
    rw (cancel_member-drained q m) (dispatch_next_locked-Inv _ (drained-Inv q m v))

cancel_all-Inv : (hs : List ℕ) (q : FairQueue) → Inv q → Inv (cancel_all hs q)
unfolding cancel_all
cancel_all-Inv [] q v = v
cancel_all-Inv (h ∷ hs) q v = cancel_all-Inv hs (cancel_item q h) (cancel_item-Inv q h v)

pub same-Inv :
    (q : FairQueue) (l : Limits) (c : Bool) → Inv q → Inv (record q { limits = l; closed = c })
same-Inv q l c v = record {
  active_total = v.active_total;
  queued_total = v.queued_total;
  member_total = v.member_total;
  turns = v.turns;
  filled = v.filled;
  queues_distinct = v.queues_distinct;
  active_distinct = v.active_distinct;
  placed = v.placed;
  slots = v.slots;
  not_active = v.not_active;
  unique_waiting = v.unique_waiting;
}

pub close-Inv : (q : FairQueue) → Inv q → Inv (close q)
unfolding close
close-Inv q v =
    cancel_all-Inv (all_queued q.queues) _
      (cancel_all-Inv (map (λ e. e.1) q.active_items) _ (same-Inv q q.limits true v))

pub set_limits-Inv : (q : FairQueue) (l : RawLimits) → Inv q → Inv (set_limits q l)
unfolding set_limits
set_limits-Inv q l v = dispatch_next_locked-Inv _ (same-Inv q (normalize_limits l) q.closed v)
