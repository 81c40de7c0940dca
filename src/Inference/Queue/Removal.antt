-- ===== src/Inference/Queue/Removal.antt =====
-- Taking an item off its queue keeps the invariant.
use woolwire.Base.{
  Bytes, List, Option-cases, [], arith, bytes_dec, count, false, inl, inr, ite, length, not, refl,
  some, true, ℕ, ℕ_discrete, ◌&&◌, ◌+◌, ◌-◌, ◌<◌, ◌∷◌, ◌≡◌, ◌≤◌, ◌⊎◌,
}
use woolwire.Base.Maps.{
  lookup, lookup-put, lookup-delete, Distinct, put-Distinct, delete-Distinct, sum_of,
  sum_of-put_old, sum_of-delete,
}
use woolwire.Inference.Queue.{
  FairQueue, write, key_of, queued_count, queue_of, decrement_member, erase_item,
  drop_from_rotation, store_queue, remove_locked,
}
use woolwire.Inference.Queue.Invariant.{Inv, is_waiting, presence, stored}

length-erase_item :
    (h : ℕ) (xs : List ℕ) → 0 < count ℕ_discrete h xs → length (erase_item h xs) + 1 ≡ length xs
unfolding erase_item count
length-erase_item h [] p = absurd (omega arith)
length-erase_item h (x ∷ xs) p = ground (arith, length-erase_item h xs)

count-erase_item :
    (h g : ℕ) (xs : List ℕ)
    → 0 < count ℕ_discrete h xs
    → count ℕ_discrete g (erase_item h xs) + ite (ℕ_discrete h g) 1 0 ≡ count ℕ_discrete g xs
unfolding erase_item count
count-erase_item h g [] p = absurd (omega arith)
count-erase_item h g (x ∷ xs) p = ground (arith, count-erase_item h g xs)

count-drop_from_rotation :
    (m k : Bytes) (rot : List Bytes)
    → count bytes_dec m rot ≡ 1
    → count bytes_dec k (drop_from_rotation m rot) ≡ ite (bytes_dec m k) 0 (count bytes_dec k rot)
unfolding drop_from_rotation count
count-drop_from_rotation m k [] p = absurd (omega arith)
count-drop_from_rotation m k (x ∷ xs) p = ground (arith, count-drop_from_rotation m k xs)

lookup-store_queue :
    (q : FairQueue) (m : Bytes) (ys : List ℕ) (k : Bytes)
    → lookup bytes_dec k (store_queue q m ys).queues
      ≡ ite (bytes_dec m k) (stored ys) (lookup bytes_dec k q.queues)
unfolding store_queue
lookup-store_queue q m [] k = lookup-delete bytes_dec m k q.queues
lookup-store_queue q m (y ∷ ys) k = lookup-put bytes_dec m k (y ∷ ys) q.queues

pub store_queue-keeps :
    (q : FairQueue) (m : Bytes) (ys : List ℕ)
    → let q' = store_queue q m ys in
      (q'.items ≡ q.items)
      × (q'.active_items ≡ q.active_items)
      × (q'.active_count ≡ q.active_count)
      × (q'.member_queued ≡ q.member_queued)
      × (q'.total_queued ≡ q.total_queued)
      × (q'.next ≡ q.next)
      × (q'.limits ≡ q.limits)
unfolding store_queue
store_queue-keeps q m [] = (refl, refl, refl, refl, refl, refl, refl)
store_queue-keeps q m (y ∷ ys) = (refl, refl, refl, refl, refl, refl, refl)

store_queue-Distinct :
    (q : FairQueue) (m : Bytes) (ys : List ℕ)
    → Distinct bytes_dec q.queues
    → Distinct bytes_dec (store_queue q m ys).queues
unfolding store_queue
store_queue-Distinct q m [] d = delete-Distinct bytes_dec m q.queues d
store_queue-Distinct q m (y ∷ ys) d = put-Distinct bytes_dec m (y ∷ ys) q.queues d

sum-store_queue :
    (q : FairQueue) (m : Bytes) (xs ys : List ℕ)
    → Distinct bytes_dec q.queues
    → lookup bytes_dec m q.queues ≡ some xs
    → sum_of length (store_queue q m ys).queues + length xs ≡ sum_of length q.queues + length ys
unfolding store_queue
sum-store_queue q m xs [] d e = omega (arith, sum_of-delete bytes_dec length m xs q.queues d e)
sum-store_queue q m xs (y ∷ ys) d e = sum_of-put_old bytes_dec length m xs (y ∷ ys) q.queues e

count-store_queue :
    (q : FairQueue) (m : Bytes) (ys : List ℕ) (k : Bytes)
    → count bytes_dec m q.rotation ≡ 1
    → count bytes_dec k (store_queue q m ys).rotation
      ≡ ite (bytes_dec m k) (presence (stored ys)) (count bytes_dec k q.rotation)
unfolding store_queue
count-store_queue q m [] k e = count-drop_from_rotation m k q.rotation e
count-store_queue q m (y ∷ ys) k e = ground arith

-- The state of `remove_locked` before the shorter queue is stored.
abbrev pub unmark : FairQueue → ℕ → FairQueue
unmark q h = record q {
  items = write q.items h (record (q.items h) { removed = true });
  member_queued =
      decrement_member (q.items h).member_id (queued_count q (q.items h).member_id) q.member_queued;
  total_queued = q.total_queued - 1;
}

module _ (q : FairQueue) (v : Inv q) (h : ℕ) (waits : is_waiting q h ≡ true) where
  abbrev owner : Bytes
  owner = (q.items h).member_id

  abbrev left : List ℕ
  left = erase_item h (queue_of q owner)

  abbrev shorter : FairQueue
  shorter = store_queue (unmark q h) owner left

  counted : count ℕ_discrete h (queue_of q owner) ≡ 1
  counted = ground (arith, v.placed h owner)

  present : (xs : List ℕ) × (lookup bytes_dec owner q.queues ≡ some xs)
  unfolding count
  present = elim (Option-cases (lookup bytes_dec owner q.queues)) [
    | inl e ↦ absurd (ground (arith, counted))
    | inr e ↦ e
  ]

  once : count bytes_dec owner q.rotation ≡ 1
  once = ground (arith, v.turns owner, present)

  shorter-Inv : Inv shorter
  unfolding decrement_member
  shorter-Inv =
      let (xs, e) = present in
      let kept = store_queue-keeps (unmark q h) owner left in
      record {
        active_total = ground (arith, kept, v.active_total);
        queued_total = ground (
          arith,
          kept,
          v.queued_total,
          sum-store_queue (unmark q h) owner xs left v.queues_distinct e,
          length-erase_item h xs,
          counted,
        );
        member_total = λ k. ground (
          arith,
          kept,
          lookup-store_queue (unmark q h) owner left k,
          v.member_total k,
          v.member_total owner,
          length-erase_item h xs,
          counted,
          e,
          lookup-put bytes_dec owner k (queued_count q owner - 1) q.member_queued,
          lookup-delete bytes_dec owner k q.member_queued,
        );
        turns = λ k. ground (
          arith,
          lookup-store_queue (unmark q h) owner left k,
          count-store_queue (unmark q h) owner left k once,
          v.turns k,
        );
        filled = λ k f. ground (arith, lookup-store_queue (unmark q h) owner left k, v.filled k);
        queues_distinct = store_queue-Distinct (unmark q h) owner left v.queues_distinct;
        active_distinct = ground (arith, kept, v.active_distinct);
        placed = λ g k. ground (
          arith,
          kept,
          lookup-store_queue (unmark q h) owner left k,
          v.placed g k,
          v.placed h k,
          count-erase_item h g xs,
          counted,
          e,
        );
        slots = λ k g s. ground (arith, kept, v.slots k g);
        not_active = λ g w. ground (arith, kept, v.not_active g);
        unique_waiting = λ f g w x k. ground (arith, kept, v.unique_waiting f g);
      }

pub remove_locked-Inv :
    (q : FairQueue) (h : ℕ)
    → Inv q
    → ((q.items h).removed ≡ true) ⊎ (is_waiting q h ≡ true)
    → Inv (remove_locked q h)
unfolding remove_locked
remove_locked-Inv q h v (inl gone) = rw gone v
remove_locked-Inv q h v (inr waits) =
    let here : (q.items h).removed ≡ false = ground arith in rw here (shorter-Inv q v h waits)

-- What else it changes: the item's own flag, and nothing that admission looks at.
pub remove_locked-keeps :
    (q : FairQueue) (h : ℕ)
    → let q' = remove_locked q h in
      ((g : ℕ) → is_waiting q' g ≡ (is_waiting q g && not (ite (ℕ_discrete h g) true false)))
      × ((g : ℕ) → ((q'.items g).dispatched ≡ (q.items g).dispatched) × (key_of q' g ≡ key_of q g))
      × (q'.active_count ≡ q.active_count)
      × (q'.active_items ≡ q.active_items)
      × (q'.next ≡ q.next)
      × (q'.limits ≡ q.limits)
      × (q'.total_queued ≤ q.total_queued)
unfolding remove_locked
remove_locked-keeps q h =
    let kept =
      store_queue-keeps (unmark q h) (q.items h).member_id
        (erase_item h (queue_of q (q.items h).member_id)) in
    (
      λ g. ground (arith, kept),
      λ g. ground (arith, kept),
      ground (arith, kept),
      ground (arith, kept),
      ground (arith, kept),
      ground (arith, kept),
      ground (arith, kept),
    )
