-- ===== src/Inference/Queue/Dispatch.antt =====
-- One round of the dispatch loop keeps the invariant, and the loop ends by its own test.
use woolwire.Base.{
  Bytes, List, [], arith, bytes_dec, count, count-append, ite, length, none, some, true, ℕ,
  ℕ_discrete, ◌-◌, ◌<◌, ◌∷◌, ◌≡◌, ◌≢◌,
}
use woolwire.Base.Maps.{lookup, lookup-put, lookup-delete}
use woolwire.Inference.Queue.{
  Key, FairQueue, key_dec, key_of, queued_count, queue_of, charge, dispatch_head, decrement_member,
}
use woolwire.Inference.Queue.Invariant.{
  Inv, is_waiting, one_if, presence, turn, head_waits, lookup-dispatched, rotation-dispatched,
  charged,
}

module _ (q : FairQueue) (v : Inv q) (m : Bytes) (rest : List Bytes) (h : ℕ) (more : List ℕ)
    (front : q.rotation ≡ m ∷ rest) (items : lookup bytes_dec m q.queues ≡ some (h ∷ more)) where
  abbrev pub next_queue : FairQueue
  next_queue = dispatch_head q m rest (h ∷ more)

  pub dispatched-counts : (k : Bytes) → queued_count next_queue k ≡ length (queue_of next_queue k)
  unfolding charge decrement_member
  dispatched-counts k = ground (
    arith,
    charged q v m rest h more,
    lookup-dispatched q v m rest h more k,
    v.member_total k,
    v.member_total m,
    lookup-put bytes_dec m k (queued_count q m - 1) q.member_queued,
    lookup-delete bytes_dec m k q.member_queued,
  )

  pub dispatched-turns :
      (k : Bytes)
      → count bytes_dec k next_queue.rotation ≡ presence (lookup bytes_dec k next_queue.queues)
  unfolding count
  dispatched-turns k = ground (
    arith,
    rotation-dispatched q v m rest h more,
    lookup-dispatched q v m rest h more k,
    v.turns k,
    count-append bytes_dec k rest (turn more m),
    v.turns m,
  )

  pub dispatched-filled : (k : Bytes) → lookup bytes_dec k next_queue.queues ≢ some []
  dispatched-filled k e = ground (arith, lookup-dispatched q v m rest h more k, v.filled k)

  pub dispatched-placed :
      (g : ℕ) (k : Bytes)
      → count ℕ_discrete g (queue_of next_queue k)
        ≡ ite (bytes_dec (next_queue.items g).member_id k) (one_if (is_waiting next_queue g)) 0
  unfolding charge count
  dispatched-placed g k = ground (
    arith,
    charged q v m rest h more,
    lookup-dispatched q v m rest h more k,
    v.placed g k,
    v.placed h m,
    head_waits q v m rest h more items,
  )

  pub dispatched-slots :
      (k : Key) (g : ℕ)
      → lookup key_dec k next_queue.active_items ≡ some g
      → (key_of next_queue g ≡ k) × ((next_queue.items g).dispatched ≡ true) × (g < next_queue.next)
  unfolding charge
  dispatched-slots k g e = ground (
    arith,
    charged q v m rest h more,
    v.slots k g,
    head_waits q v m rest h more items,
    lookup-put key_dec (key_of q h) k h q.active_items,
  )

  pub dispatched-not_active :
      (g : ℕ)
      → is_waiting next_queue g ≡ true
      → lookup key_dec (key_of next_queue g) next_queue.active_items ≡ none
  unfolding charge
  dispatched-not_active g e = ground (
    arith,
    charged q v m rest h more,
    v.not_active g,
    v.unique_waiting h g,
    head_waits q v m rest h more items,
    lookup-put key_dec (key_of q h) (key_of q g) h q.active_items,
  )

  pub dispatched_unique :
      (f g : ℕ)
      → is_waiting next_queue f ≡ true
      → is_waiting next_queue g ≡ true
      → key_of next_queue f ≡ key_of next_queue g
      → f ≡ g
  unfolding charge
  dispatched_unique f g d e k = ground (arith, charged q v m rest h more, v.unique_waiting f g)
