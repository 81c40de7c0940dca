-- ===== src/Inference/Queue/Turns.antt =====
-- Whose turn it is: the rotation serves every waiting member before any of them twice, and a
-- member's own requests in the order in which they came.
use mathlib.Core.List.{append_assoc}
use woolwire.Base.{
  Bytes, List, Option-cases, [], ap, arith, bytes_dec, count, count-append, inl, inr, ite, length,
  refl, some, suc, true, zero, ℕ, ◌++◌, ◌∙◌, ◌∷◌, ◌≡◌, ◌≢◌,
}
use woolwire.Base.Maps.{lookup}
use woolwire.Inference.Queue.{FairQueue, queue_of, dispatch_head, charge, dispatch_step}
use woolwire.Inference.Queue.Invariant.{
  Inv, rotation-dispatched, lookup-dispatched, turn, stored, charged,
}
use woolwire.Inference.Queue.Loop.{front_items, dispatch_step-head, dispatch_step-Inv}

-- `n` rounds of the dispatch loop.
unfoldable pub rounds : ℕ → FairQueue → FairQueue
rounds zero q = q
rounds (suc n) q = rounds n (dispatch_step q q.rotation)

-- One round with another member in front.
other_round :
    (q : FairQueue) (m : Bytes) (rest : List Bytes) (k : Bytes)
    → Inv q
    → q.rotation ≡ m ∷ rest
    → m ≢ k
    → (back : List Bytes) × ((dispatch_step q (m ∷ rest)).rotation ≡ rest ++ back)
      × (queue_of (dispatch_step q (m ∷ rest)) k ≡ queue_of q k)
other_round q m rest k v front ne =
    let (h, more, e) = front_items q m rest v front in
    (
      turn more m,
      rw (dispatch_step-head q m rest h more e) (rotation-dispatched q v m rest h more),
      rw (dispatch_step-head q m rest h more e)
          (ground (arith, lookup-dispatched q v m rest h more k)),
    )

-- One round with this member in front: its oldest item gets the slot.
own_round :
    (q : FairQueue) (k : Bytes) (rest : List Bytes) (h : ℕ) (more : List ℕ)
    → Inv q
    → q.rotation ≡ k ∷ rest
    → queue_of q k ≡ h ∷ more
    → (((dispatch_step q (k ∷ rest)).items h).dispatched ≡ true)
      × (queue_of (dispatch_step q (k ∷ rest)) k ≡ more)
own_round q k rest h more v front e = rw (dispatch_step-head q k rest h more found) (marked, taken)
  where
    found : lookup bytes_dec k q.queues ≡ some (h ∷ more)
    found = elim (Option-cases (lookup bytes_dec k q.queues)) [
      | inl a ↦ ground arith
      | inr (xs, a) ↦ ground arith
    ]

    marked : ((dispatch_head q k rest (h ∷ more)).items h).dispatched ≡ true
    marked = unfold charge in ground (arith, charged q v k rest h more)

    taken : queue_of (dispatch_head q k rest (h ∷ more)) k ≡ more
    taken = served more (lookup-dispatched q v k rest h more k)
      where
        served :
            (ys : List ℕ)
            → lookup bytes_dec k (dispatch_head q k rest (h ∷ more)).queues
              ≡ ite (bytes_dec k k) (stored ys) (lookup bytes_dec k q.queues)
            → queue_of (dispatch_head q k rest (h ∷ more)) k ≡ ys
        served [] s = ground arith
        served (y ∷ ys) s = ground arith

not_ahead :
    (q : FairQueue) (m : Bytes) (ahead : List Bytes) (k : Bytes) (behind : List Bytes)
    → Inv q
    → q.rotation ≡ m ∷ (ahead ++ k ∷ behind)
    → m ≢ k
unfolding count
not_ahead q m ahead k behind v e same =
    ground (arith, v.turns k, count-append bytes_dec k ahead (k ∷ behind))

-- In a queue whose invariant holds, a member with n members ahead of it in the rotation has its
-- oldest request dispatched by the (n + 1)st round of the dispatch loop, and its later requests
-- stay in order.
pub rounds-serves :
    (ahead : List Bytes) (k : Bytes) (behind : List Bytes) (q : FairQueue) (h : ℕ) (more : List ℕ)
    → Inv q
    → q.rotation ≡ ahead ++ k ∷ behind
    → queue_of q k ≡ h ∷ more
    → let q' = rounds (suc (length ahead)) q in
      ((q'.items h).dispatched ≡ true) × (queue_of q' k ≡ more)
unfolding rounds
rounds-serves [] k behind q h more v e w = simp e (own_round q k behind h more v e w)
rounds-serves (m ∷ ahead) k behind q h more v e w =
    let ne = not_ahead q m ahead k behind v e in
    let (back, r, same) = other_round q m (ahead ++ k ∷ behind) k v e ne in
    rounds-serves ahead k (behind ++ back) (dispatch_step q q.rotation) h more
      (dispatch_step-Inv q q.rotation refl v)
      (ap (λ rot. (dispatch_step q rot).rotation) e ∙ r ∙ append_assoc ahead (k ∷ behind) back)
      (ap (λ rot. queue_of (dispatch_step q rot) k) e ∙ same ∙ w)
