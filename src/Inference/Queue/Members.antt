-- ===== src/Inference/Queue/Members.antt =====
-- Cancellation is scoped to a member: `Cancel` stops nobody else's work, and `CancelMember` stops
-- all of a member's.
use woolwire.Base.{
  Bool-cases, Bytes, List, [], arith, bytes_dec, count, false, inl, inr, ite, refl, some, true, ℕ,
  ℕ_discrete, ◌+◌, ◌∙◌, ◌∷◌, ◌≡◌, ◌≢◌, ◌⊎◌,
}
use woolwire.Base.Maps.{lookup, lookup-put}
use woolwire.Inference.Queue.{
  Key, FairQueue, key_dec, key_of, queue_of, charge, dispatch_head, dispatch_next_locked,
  remove_locked, erase_item, cancel_item, cancel, cancel_active, cancel_queued, cancel_member,
}
use woolwire.Inference.Queue.Invariant.{Inv, is_waiting, charged, head_waits, lookup-dispatched}
use woolwire.Inference.Queue.Loop.{dispatch_next_locked_keeps}
use woolwire.Inference.Queue.Removal.{remove_locked-keeps, store_queue-keeps, unmark}
use woolwire.Inference.Queue.Methods.{
  cancel_cases, drained, drained-Inv, cancel_member-drained, cancel_active-keeps,
}

-- The context of item `h` is as it was in `q`.
abbrev Untouched : FairQueue → ℕ → FairQueue → Type 0
Untouched q h q' = (q'.items h).cancelled ≡ (q.items h).cancelled

dispatch_head-Untouched :
    (h : ℕ) (p q : FairQueue) (m : Bytes) (rest : List Bytes) (g : ℕ) (more : List ℕ)
    → Inv q
    → lookup bytes_dec m q.queues ≡ some (g ∷ more)
    → Untouched p h q
    → Untouched p h (dispatch_head q m rest (g ∷ more))
unfolding charge
dispatch_head-Untouched h p q m rest g more v e u = ground (arith, charged q v m rest g more)

dispatched-Untouched :
    (h : ℕ) (p q : FairQueue) → Inv q → Untouched p h q → Untouched p h (dispatch_next_locked q)
dispatched-Untouched h p q v u =
    dispatch_next_locked_keeps (Untouched p h) (dispatch_head-Untouched h p) q v u

remove_locked-Untouched : (q : FairQueue) (g h : ℕ) → Untouched q h (remove_locked q g)
unfolding remove_locked
remove_locked-Untouched q g h = ground (
  arith,
  store_queue-keeps (unmark q g) (q.items g).member_id
      (erase_item g (queue_of q (q.items g).member_id)),
)

-- In a queue whose invariant holds, Cancel on behalf of a member cancels no request of any other
-- member, whatever request id it names.
pub cancel_scoped :
    (q : FairQueue) (r m : Bytes) (h : ℕ)
    → Inv q
    → (q.items h).member_id ≢ m
    → ((cancel q r m).0.items h).cancelled ≡ (q.items h).cancelled
cancel_scoped q r m h v other =
    cancel_cases (λ s. Untouched q h s.0) q r m v (λ g e. ground (arith, v.slots (m, r) g e))
      (λ g w own. dispatched-Untouched h q _ w (ground (arith, remove_locked-Untouched q g h))) refl

cancel_active-cancels :
    (m : Bytes) (active : List (Key × ℕ)) (s : FairQueue × ℕ) (r : Bytes) (h : ℕ)
    → (lookup key_dec (m, r) active ≡ some h) ⊎ ((s.0.items h).cancelled ≡ true)
    → ((cancel_active m active s).0.items h).cancelled ≡ true
unfolding cancel_active lookup
cancel_active-cancels m [] s r h (inl e) = cc
cancel_active-cancels m [] s r h (inr e) = e
cancel_active-cancels m (((j, i), g) ∷ rest) s r h e =
    let s' = ite (bytes_dec j m) (cancel_item s.0 g, s.1 + 1) s in
    cancel_active-cancels m rest s' r h (ground arith)

cancel_queued-keeps :
    (hs : List ℕ) (s : FairQueue × ℕ)
    → let q' = (cancel_queued hs s).0 in
      (q'.active_items ≡ s.0.active_items)
      × ((h : ℕ) → (s.0.items h).cancelled ≡ true → (q'.items h).cancelled ≡ true)
      × ((h : ℕ) → is_waiting q' h ≡ true → (is_waiting s.0 h ≡ true) × (count ℕ_discrete h hs ≡ 0))
      × ((h : ℕ) → (q'.items h).member_id ≡ (s.0.items h).member_id)
unfolding cancel_queued count
cancel_queued-keeps [] s = (refl, λ h e. e, λ h e. (e, refl), λ h. refl)
cancel_queued-keeps (g ∷ hs) s =
    let q = cancel_item (remove_locked s.0 g) g in
    let ih = cancel_queued-keeps hs (q, s.1 + 1) in
    let kept = remove_locked-keeps s.0 g in
    (
      ih.0 ∙ kept.3,
      λ h e. ground (arith, ih.1 h, remove_locked-Untouched s.0 g h),
      λ h e. ground (arith, ih.2 h e, kept.0 h),
      λ h. ground (arith, ih.3 h, kept.1 h),
    )

cancel_active-active_items :
    (m : Bytes) (active : List (Key × ℕ)) (s : FairQueue × ℕ)
    → ((cancel_active m active s).0.active_items ≡ s.0.active_items)
      × ((h : ℕ) → ((cancel_active m active s).0.items h).member_id ≡ (s.0.items h).member_id)
unfolding cancel_active
cancel_active-active_items m [] s = (refl, λ h. refl)
cancel_active-active_items m (((j, i), g) ∷ rest) s =
    let ih =
      cancel_active-active_items m rest (ite (bytes_dec j m) (cancel_item s.0 g, s.1 + 1) s) in
    (ground (arith, ih.0), λ h. ground (arith, ih.1 h))

none_counted : (hs : List ℕ) → ((h : ℕ) → count ℕ_discrete h hs ≡ 0) → hs ≡ []
unfolding count
none_counted [] f = refl
none_counted (h ∷ hs) f = absurd (ground (arith, f h))

-- The member has nothing waiting, and what it has running is told to stop.
abbrev pub Stopped : Bytes → FairQueue → Type 0
Stopped m q =
    (queue_of q m ≡ [])
    × ((r : Bytes) (h : ℕ)
        → lookup key_dec (m, r) q.active_items ≡ some h
        → (q.items h).cancelled ≡ true)

drained-Stopped : (q : FairQueue) (m : Bytes) → Inv q → Stopped m (drained q m)
unfolding drained
drained-Stopped q m v = (
  none_counted (queue_of (drained q m) m)
      (λ h. unqueued h (Bool-cases (is_waiting (drained q m) h))),
  λ r h e.
      kept.1 h (
        cancel_active-cancels m q.active_items (q, 0) r h (inl (ground (arith, kept.0, active.0)))),
)
  where
    s : FairQueue × ℕ
    s = cancel_active m q.active_items (q, 0)

    kept :
        ((drained q m).active_items ≡ s.0.active_items)
        × ((h : ℕ) → (s.0.items h).cancelled ≡ true → ((drained q m).items h).cancelled ≡ true)
        × ((h : ℕ)
            → is_waiting (drained q m) h ≡ true
            → (is_waiting s.0 h ≡ true) × (count ℕ_discrete h (queue_of q m) ≡ 0))
        × ((h : ℕ) → ((drained q m).items h).member_id ≡ (s.0.items h).member_id)
    kept = cancel_queued-keeps (queue_of q m) s

    active :
        (s.0.active_items ≡ q.active_items)
        × ((h : ℕ) → (s.0.items h).member_id ≡ (q.items h).member_id)
    active = cancel_active-active_items m q.active_items (q, 0)

    unqueued :
        (h : ℕ)
        → (is_waiting (drained q m) h ≡ true) ⊎ (is_waiting (drained q m) h ≡ false)
        → count ℕ_discrete h (queue_of (drained q m) m) ≡ 0
    unqueued h (inr still) = ground (arith, (drained-Inv q m v).placed h m)
    unqueued h (inl waits) = ground (
      arith,
      (drained-Inv q m v).placed h m,
      kept.2 h waits,
      kept.3 h,
      active.1 h,
      (cancel_active-keeps m q.active_items (q, 0)).0 h,
      v.placed h m,
    )

dispatch_head-Stopped :
    (k : Bytes) (q : FairQueue) (m : Bytes) (rest : List Bytes) (h : ℕ) (more : List ℕ)
    → Inv q
    → lookup bytes_dec m q.queues ≡ some (h ∷ more)
    → Stopped k q
    → Stopped k (dispatch_head q m rest (h ∷ more))
unfolding charge
dispatch_head-Stopped k q m rest h more v e st = (
  ground (arith, lookup-dispatched q v m rest h more k, st.0),
  λ r g a. ground (
    arith,
    charged q v m rest h more,
    head_waits q v m rest h more e,
    st.0,
    st.1 r g,
    lookup-put key_dec (key_of q h) (k, r) h q.active_items,
  ),
)

-- In a queue whose invariant holds, CancelMember leaves the member with nothing waiting and with
-- every one of its running requests cancelled, also after the freed places have been dispatched to
-- others.
pub cancel_member-Stopped : (q : FairQueue) (m : Bytes) → Inv q → Stopped m (cancel_member q m).0
cancel_member-Stopped q m v = rw (cancel_member-drained q m) (
    dispatch_next_locked_keeps (Stopped m) (dispatch_head-Stopped m) (drained q m)
      (drained-Inv q m v) (drained-Stopped q m v))
