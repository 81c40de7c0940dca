-- ===== src/Inference/Queue/Invariant.antt =====
-- The invariant of the fair queue, and the small steps that keep it.
use woolwire.Base.{
  Bool, Bytes, List, Option, [], arith, bytes_dec, count, false, ite, length, ltb, none, not, refl,
  some, sym, true, ℕ, ℕ_discrete, ◌&&◌, ◌++◌, ◌<◌, ◌∷◌, ◌≡◌, ◌≢◌,
}
use mathlib.Core.List.{append-nil}
use woolwire.Base.Maps.{
  lookup, lookup-put, lookup-delete, Distinct, sum_of, sum_of-put_old, sum_of-delete,
  length-put_new,
}
use woolwire.Inference.Queue.{
  Key, FairQueue, key_dec, key_of, queued_count, queue_of, charge, dispatch_head,
}

-- Allocated, not yet given a slot, not yet taken off its queue.
abbrev pub is_waiting : FairQueue → ℕ → Bool
is_waiting q h = ltb h q.next && not (q.items h).dispatched && not (q.items h).removed

abbrev pub one_if : Bool → ℕ
one_if true = 1
one_if false = 0

abbrev pub presence : Option (List ℕ) → ℕ
presence none = 0
presence (some xs) = 1

pub record Inv (q : FairQueue) : Type 0 where
  pub active_total : q.active_count ≡ length q.active_items
  pub queued_total : q.total_queued ≡ sum_of length q.queues
  pub member_total : (m : Bytes) → queued_count q m ≡ length (queue_of q m)
  pub turns : (m : Bytes) → count bytes_dec m q.rotation ≡ presence (lookup bytes_dec m q.queues)
  pub filled : (m : Bytes) → lookup bytes_dec m q.queues ≢ some []
  pub queues_distinct : Distinct bytes_dec q.queues
  pub active_distinct : Distinct key_dec q.active_items
  -- an item stands once in its member's queue while it waits, and nowhere else
  pub placed :
      (h : ℕ) (m : Bytes)
      → count ℕ_discrete h (queue_of q m)
        ≡ ite (bytes_dec (q.items h).member_id m) (one_if (is_waiting q h)) 0
  -- the slots are held by dispatched items, under their own keys
  pub slots :
      (k : Key) (h : ℕ)
      → lookup key_dec k q.active_items ≡ some h
      → (key_of q h ≡ k) × ((q.items h).dispatched ≡ true) × (h < q.next)
  pub not_active :
      (h : ℕ) → is_waiting q h ≡ true → lookup key_dec (key_of q h) q.active_items ≡ none
  pub unique_waiting :
      (h g : ℕ) → is_waiting q h ≡ true → is_waiting q g ≡ true → key_of q h ≡ key_of q g → h ≡ g

-- What is stored for the rest of a queue.
abbrev pub stored : List ℕ → Option (List ℕ)
stored [] = none
stored (x ∷ xs) = some (x ∷ xs)

abbrev pub turn : List ℕ → Bytes → List Bytes
turn [] m = []
turn (x ∷ xs) m = m ∷ []

-- One dispatch, at the member `m` whose queue is `h ∷ more`.
module _ (q : FairQueue) (v : Inv q) (m : Bytes) (rest : List Bytes) (h : ℕ) where
  -- the head of the queue waits, and is this member's
  pub head_waits :
      (more : List ℕ)
      → lookup bytes_dec m q.queues ≡ some (h ∷ more)
      → ((q.items h).member_id ≡ m) × (is_waiting q h ≡ true)
  unfolding count
  head_waits more items = ground (arith, v.placed h m)

  pub dispatched-active :
      (more : List ℕ)
      → lookup bytes_dec m q.queues ≡ some (h ∷ more)
      → (dispatch_head q m rest (h ∷ more)).active_count
        ≡ length (dispatch_head q m rest (h ∷ more)).active_items
  unfolding dispatch_head
  dispatched-active [] items = ground (
    arith,
    head_waits [] items,
    v.not_active h,
    length-put_new key_dec (key_of q h) h q.active_items,
    v.active_total,
  )
  dispatched-active (x ∷ xs) items = ground (
    arith,
    head_waits (x ∷ xs) items,
    v.not_active h,
    length-put_new key_dec (key_of q h) h q.active_items,
    v.active_total,
  )

  pub dispatched-total :
      (more : List ℕ)
      → lookup bytes_dec m q.queues ≡ some (h ∷ more)
      → (dispatch_head q m rest (h ∷ more)).total_queued
        ≡ sum_of length (dispatch_head q m rest (h ∷ more)).queues
  unfolding dispatch_head
  dispatched-total [] items = ground (
    arith,
    v.queued_total,
    sum_of-delete bytes_dec length m (h ∷ []) q.queues v.queues_distinct items,
  )
  dispatched-total (x ∷ xs) items = ground (
    arith,
    v.queued_total,
    sum_of-put_old bytes_dec length m (h ∷ x ∷ xs) (x ∷ xs) q.queues items,
  )

  pub lookup-dispatched :
      (more : List ℕ) (k : Bytes)
      → lookup bytes_dec k (dispatch_head q m rest (h ∷ more)).queues
        ≡ ite (bytes_dec m k) (stored more) (lookup bytes_dec k q.queues)
  unfolding dispatch_head
  lookup-dispatched [] k = lookup-delete bytes_dec m k q.queues
  lookup-dispatched (x ∷ xs) k = lookup-put bytes_dec m k (x ∷ xs) q.queues

  pub rotation-dispatched :
      (more : List ℕ) → (dispatch_head q m rest (h ∷ more)).rotation ≡ rest ++ turn more m
  unfolding dispatch_head
  rotation-dispatched [] = sym (append-nil rest)
  rotation-dispatched (x ∷ xs) = refl

  -- The fields that do not depend on what is left of the queue.
  pub charged :
      (more : List ℕ)
      → let q' = dispatch_head q m rest (h ∷ more) in
        (q'.items ≡ (charge q m h).items)
        × (q'.active_items ≡ (charge q m h).active_items)
        × (q'.member_queued ≡ (charge q m h).member_queued)
        × (q'.next ≡ q.next)
  unfolding dispatch_head
  charged [] = (refl, refl, refl, refl)
  charged (x ∷ xs) = (refl, refl, refl, refl)
