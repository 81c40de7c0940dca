-- ===== src/Inference/Queue.antt =====
-- queue.go: `FairQueue`. Every method runs under the queue's lock and is one step on the state. An
-- item is a pointer (`ℕ`) into `items`, which holds its fields; what `Submit` does before, during
-- and after its wait are `submit`, `claim_abort` and `finish`.
pub mod Invariant
pub mod Dispatch
pub mod Loop
pub mod Removal
pub mod Steps
pub mod Methods
pub mod Bounds
pub mod History
pub mod Capacity
pub mod Turns
pub mod Members
use woolwire.Base.{
  Bool, Bytes, List, Option, [], ap, bytes_dec, false, if◌then◌else◌, ite, leb, length, ltb, map,
  none, not, some, suc, true, zero, ℕ, ℕ_discrete, ◌&&◌, ◌++◌, ◌+◌, ◌-◌, ◌==◌, ◌||◌, ◌∷◌, ◌≡◌,
}
use woolwire.Base.Maps.{lookup, put, delete}
use woolwire.Inference.Limits.{RawLimits, Limits, normalize_limits}

pub record Item : Type 0 where
  pub request_id : Bytes
  pub member_id : Bytes
  pub dispatched : Bool
  pub removed : Bool
  -- the item's context has been cancelled
  pub cancelled : Bool

abbrev pub Key : Type 0
Key = Bytes × Bytes

key_dec' : {a b c d : Bytes} → Dec (a ≡ c) → Dec (b ≡ d) → Dec (◌≡◌ {A = Key} (a, b) (c, d))
key_dec' (yes p) (yes q) = yes (λ i. (p i, q i))
key_dec' (yes p) (no q) = no (λ e. q (ap (λ k. k.1) e))
key_dec' (no p) q = no (λ e. p (ap (λ k. k.0) e))

-- a `requestKey`: the member, then the request
unfoldable pub key_dec : Discrete Key
unfolding key_dec'
key_dec (a, b) (c, d) = key_dec' (bytes_dec a c) (bytes_dec b d)

pub record FairQueue : Type 0 where
  pub limits : Limits
  pub active_count : ℕ
  pub total_queued : ℕ
  pub member_queued : List (Bytes × ℕ)
  pub queues : List (Bytes × List ℕ)
  pub rotation : List Bytes
  pub active_items : List (Key × ℕ)
  pub closed : Bool
  -- the items allocated so far, and the next pointer
  pub items : ℕ → Item
  pub next : ℕ

abbrev pub blank : Item
blank = record {
  request_id = [];
  member_id = [];
  dispatched = false;
  removed = false;
  cancelled = false;
}

unfoldable pub new_fair_queue : RawLimits → FairQueue
new_fair_queue l = record {
  limits = normalize_limits l;
  active_count = 0;
  total_queued = 0;
  member_queued = [];
  queues = [];
  rotation = [];
  active_items = [];
  closed = false;
  items = λ _. blank;
  next = 0;
}

-- A write through a pointer.
abbrev pub write : (ℕ → Item) → ℕ → Item → ℕ → Item
write items h it k = ite (ℕ_discrete h k) it (items k)

abbrev pub cancel_item : FairQueue → ℕ → FairQueue
cancel_item q h = record q { items = write q.items h (record (q.items h) { cancelled = true }) }

abbrev pub key_of : FairQueue → ℕ → Key
key_of q h = ((q.items h).member_id, (q.items h).request_id)

-- `q.memberQueued[m]`, `q.queues[m]`: a missing key reads as zero, or as no items.
abbrev pub or_zero : Option ℕ → ℕ
or_zero none = 0
or_zero (some n) = n

abbrev pub or_nil : Option (List ℕ) → List ℕ
or_nil none = []
or_nil (some xs) = xs

abbrev pub queued_count : FairQueue → Bytes → ℕ
queued_count q m = or_zero (lookup bytes_dec m q.member_queued)

abbrev pub queue_of : FairQueue → Bytes → List ℕ
queue_of q m = or_nil (lookup bytes_dec m q.queues)

-- A member that had nothing waiting goes to the back of the rotation.
unfoldable pub enqueue_for : FairQueue → Bytes → ℕ → FairQueue
enqueue_for q m h = record q {
  rotation = elim (lookup bytes_dec m q.queues) [
    | none ↦ q.rotation ++ m ∷ []
    | some _ ↦ q.rotation
  ];
  queues = put bytes_dec m (queue_of q m ++ h ∷ []) q.queues;
  member_queued = put bytes_dec m (queued_count q m + 1) q.member_queued;
  total_queued = q.total_queued + 1;
}

unfoldable pub enqueue_locked : FairQueue → ℕ → FairQueue
unfolding enqueue_for
enqueue_locked q h = enqueue_for q (q.items h).member_id h

-- `q.memberQueued[m]--`, and the entry goes when nothing is left.
unfoldable pub decrement_member : Bytes → ℕ → List (Bytes × ℕ) → List (Bytes × ℕ)
decrement_member m n counts =
    if leb n 1 then delete bytes_dec m counts else put bytes_dec m (n - 1) counts

-- `append(items[:i:i], items[i+1:]...)` at the first `target`
unfoldable pub erase_item : ℕ → List ℕ → List ℕ
erase_item h [] = []
erase_item h (x ∷ xs) = ite (ℕ_discrete x h) xs (x ∷ erase_item h xs)

unfoldable pub drop_from_rotation : Bytes → List Bytes → List Bytes
drop_from_rotation m [] = []
drop_from_rotation m (x ∷ xs) = ite (bytes_dec x m) xs (x ∷ drop_from_rotation m xs)

-- A member with nothing left waiting leaves the map and the rotation.
unfoldable pub store_queue : FairQueue → Bytes → List ℕ → FairQueue
unfolding drop_from_rotation
store_queue q m [] = record q {
  queues = delete bytes_dec m q.queues;
  rotation = drop_from_rotation m q.rotation;
}
store_queue q m (x ∷ xs) = record q { queues = put bytes_dec m (x ∷ xs) q.queues }

unfoldable pub remove_locked : FairQueue → ℕ → FairQueue
unfolding store_queue decrement_member erase_item
remove_locked q h =
    let m = (q.items h).member_id in
    if (q.items h).removed
    then q
    else store_queue
        (record q {
          items = write q.items h (record (q.items h) { removed = true });
          member_queued = decrement_member m (queued_count q m) q.member_queued;
          total_queued = q.total_queued - 1;
        })
        m (erase_item h (queue_of q m))

-- The slot is charged to the item at the head of the member's queue.
unfoldable pub charge : FairQueue → Bytes → ℕ → FairQueue
unfolding decrement_member
charge q m h = record q {
  member_queued = decrement_member m (queued_count q m) q.member_queued;
  total_queued = q.total_queued - 1;
  items = write q.items h (record (q.items h) { removed = true; dispatched = true });
  active_count = q.active_count + 1;
  active_items = put key_dec (key_of q h) h q.active_items;
}

-- The member goes to the back of the rotation if it still has work waiting.
unfoldable pub rotate : FairQueue → Bytes → List Bytes → List ℕ → FairQueue
rotate q m rest [] = record q { queues = delete bytes_dec m q.queues; rotation = rest }
rotate q m rest (x ∷ xs) = record q {
  queues = put bytes_dec m (x ∷ xs) q.queues;
  rotation = rest ++ m ∷ [];
}

-- The body of the dispatch loop, at the head of the rotation and that member's items.
unfoldable pub dispatch_head : FairQueue → Bytes → List Bytes → List ℕ → FairQueue
unfolding charge rotate
dispatch_head q m rest [] = record q { rotation = rest; queues = delete bytes_dec m q.queues }
dispatch_head q m rest (h ∷ more) = rotate (charge q m h) m rest more

unfoldable pub dispatch_step : FairQueue → List Bytes → FairQueue
unfolding dispatch_head
dispatch_step q [] = q
dispatch_step q (m ∷ rest) = dispatch_head q m rest (queue_of q m)

abbrev pub is_nil {ℓ} : {A : Type ℓ} → List A → Bool
is_nil [] = true
is_nil (x ∷ xs) = false

-- The test of the dispatch loop.
abbrev pub can_dispatch : FairQueue → Bool
can_dispatch q =
    ltb q.active_count q.limits.max_active && ltb 0 q.total_queued && not (is_nil q.rotation)

unfoldable pub dispatch_loop : ℕ → FairQueue → FairQueue
unfolding dispatch_step
dispatch_loop zero q = q
dispatch_loop (suc f) q = elim (can_dispatch q) [
  | true ↦ dispatch_loop f (dispatch_step q q.rotation)
  | false ↦ q
]

-- Each round takes an item off the queues, or a member off the rotation.
unfoldable pub dispatch_next_locked : FairQueue → FairQueue
unfolding dispatch_loop
dispatch_next_locked q = dispatch_loop (q.total_queued + length q.rotation) q

unfoldable pub set_limits : FairQueue → RawLimits → FairQueue
set_limits q l = dispatch_next_locked (record q { limits = normalize_limits l })

pub data SubmitError : Type 0 where
  queue_closed duplicate_request member_queue_full queue_overflow : SubmitError

-- What `Submit` decides before it waits: to refuse, to run at once, or to wait in the queue.
pub data Admission : Type 0 where
  refused : SubmitError → Admission
  started : ℕ → Admission
  queued : ℕ → Admission

unfoldable pub has_request : FairQueue → Bytes → List ℕ → Bool
has_request q r [] = false
has_request q r (h ∷ hs) = ite (bytes_dec (q.items h).request_id r) true (has_request q r hs)

abbrev pub is_some {ℓ} : {A : Type ℓ} → Option A → Bool
is_some none = false
is_some (some a) = true

unfoldable pub is_duplicate : FairQueue → Bytes → Bytes → Bool
unfolding has_request
is_duplicate q m r =
    is_some (lookup key_dec (m, r) q.active_items) || has_request q r (queue_of q m)

-- `&queueItem{...}`: a new item at a new pointer.
abbrev pub allocate : FairQueue → Bytes → Bytes → FairQueue
allocate q m r = record q {
  items = write q.items q.next (record blank { request_id = r; member_id = m });
  next = q.next + 1;
}

unfoldable pub start_now : FairQueue → Bytes → Bytes → FairQueue
start_now q m r = record q {
  items = write q.items q.next (record blank { request_id = r; member_id = m; dispatched = true });
  next = q.next + 1;
  active_count = q.active_count + 1;
  active_items = put key_dec (m, r) q.next q.active_items;
}

unfoldable pub submit : FairQueue → Bytes → Bytes → FairQueue × Admission
unfolding start_now enqueue_locked is_duplicate
submit q m r =
    if q.closed
    then (q, refused queue_closed)
    else if is_duplicate q m r
    then (q, refused duplicate_request)
    else if leb q.limits.max_queued_per_member (queued_count q m)
    then (q, refused member_queue_full)
    else if leb q.limits.max_queued_total q.total_queued
    then (q, refused queue_overflow)
    else if ltb q.active_count q.limits.max_active && q.total_queued == 0
    then (start_now q m r, started q.next)
    else (enqueue_locked (allocate q m r) q.next, queued q.next)

unfoldable pub claim_abort : FairQueue → ℕ → FairQueue × Bool
unfolding remove_locked
claim_abort q h =
    if (q.items h).dispatched
    then (q, false)
    else if (q.items h).removed
    then (q, true)
    else (remove_locked q h, true)

-- `q.activeItems[key] == item`
abbrev pub holds_slot : FairQueue → ℕ → Bool
holds_slot q h = elim (lookup key_dec (key_of q h) q.active_items) [
  | none ↦ false
  | some k ↦ ite (ℕ_discrete k h) true false
]

-- What `execute` does when `runFn` has returned.
unfoldable pub finish : FairQueue → ℕ → FairQueue
unfolding dispatch_next_locked
finish q h =
    cancel_item
      (if holds_slot q h
        then dispatch_next_locked (record q {
          active_items = delete key_dec (key_of q h) q.active_items;
          active_count = q.active_count - 1;
        })
        else q)
      h

unfoldable pub find_request : FairQueue → Bytes → List ℕ → Option ℕ
find_request q r [] = none
find_request q r (h ∷ hs) = ite (bytes_dec (q.items h).request_id r) (some h) (find_request q r hs)

unfoldable pub cancel : FairQueue → Bytes → Bytes → FairQueue × Bool
unfolding remove_locked dispatch_next_locked find_request
cancel q r m = elim (lookup key_dec (m, r) q.active_items) [
  | some h ↦ (cancel_item q h, true)
  | none ↦ elim (find_request q r (queue_of q m)) [
    | some h ↦ (dispatch_next_locked (cancel_item (remove_locked q h) h), true)
    | none ↦ (q, false)
  ]
]

-- The loop of `CancelMember` over the active items.
unfoldable pub cancel_active : Bytes → List (Key × ℕ) → FairQueue × ℕ → FairQueue × ℕ
cancel_active m [] s = s
cancel_active m (((j, r), h) ∷ rest) s =
    cancel_active m rest (ite (bytes_dec j m) (cancel_item s.0 h, s.1 + 1) s)

-- The loop of `CancelMember` over a copy of the member's queue.
unfoldable pub cancel_queued : List ℕ → FairQueue × ℕ → FairQueue × ℕ
unfolding remove_locked
cancel_queued [] s = s
cancel_queued (h ∷ hs) s = cancel_queued hs (cancel_item (remove_locked s.0 h) h, s.1 + 1)

unfoldable pub cancel_member : FairQueue → Bytes → FairQueue × ℕ
unfolding cancel_active cancel_queued dispatch_next_locked
cancel_member q m =
    let (q', n) = cancel_queued (queue_of q m) (cancel_active m q.active_items (q, 0)) in
    (dispatch_next_locked q', n)

unfoldable pub stats : FairQueue → ℕ × ℕ
stats q = (q.active_count, q.total_queued)

-- Every item of a list has its context cancelled.
unfoldable pub cancel_all : List ℕ → FairQueue → FairQueue
cancel_all [] q = q
cancel_all (h ∷ hs) q = cancel_all hs (cancel_item q h)

abbrev pub all_queued : List (Bytes × List ℕ) → List ℕ
all_queued [] = []
all_queued ((m, hs) ∷ rest) = hs ++ all_queued rest

unfoldable pub close : FairQueue → FairQueue
unfolding cancel_all
close q =
    cancel_all (all_queued q.queues)
      (cancel_all (map (λ e. e.1) q.active_items) (record q { closed = true }))
