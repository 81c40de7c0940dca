-- ===== src/Transport/Closing.antt =====
-- memory.go: what closing a listener or a node leaves as it was.
use woolwire.Base.{List, [], ap, arith, bytes_dec, false, if_cases, refl, ℕ, ◌∙◌, ◌∷◌, ◌≡◌, ◌≢◌}
use woolwire.Base.Maps.{delete}
use woolwire.Transport.{
  MemoryTransport, MemoryNetwork, at_number, unregister, close_listener, close_listeners,
  mark_closed, close,
}

-- What closing listeners leaves alone.
record Kept (t : ℕ) (n n' : MemoryNetwork) : Type 0 where
  same_nodes : n'.nodes ≡ n.nodes
  same_count : n'.transport_count ≡ n.transport_count
  others : (i : ℕ) → i ≢ t → n'.transports i ≡ n.transports i
  same_closed : (n'.transports t).closed ≡ (n.transports t).closed

pub at_same : (t : ℕ) (m : MemoryTransport) (f : ℕ → MemoryTransport) → at_number t m f t ≡ m
at_same t m f = ground arith

pub at_other :
    (t i : ℕ) (m : MemoryTransport) (f : ℕ → MemoryTransport) → i ≢ t → at_number t m f i ≡ f i
at_other t i m f h = ground arith

close_listener-Kept : (l t port : ℕ) (n : MemoryNetwork) → Kept t n (close_listener l t port n)
unfolding close_listener
close_listener-Kept l t port n =
    if_cases {A = MemoryNetwork} (Kept t n) _
      (λ _. record {
        same_nodes = refl;
        same_count = refl;
        others = λ i h. refl;
        same_closed = refl;
      })
      (λ _. record {
        same_nodes = refl;
        same_count = refl;
        others = λ i h. at_other t i _ n.transports h;
        same_closed = ap (λ m. m.closed) (at_same t _ n.transports);
      })

close_listeners-Kept :
    (t : ℕ) (ls : List (ℕ × ℕ)) (n : MemoryNetwork) → Kept t n (close_listeners t ls n)
unfolding close_listeners
close_listeners-Kept t [] n = record {
  same_nodes = refl;
  same_count = refl;
  others = λ i h. refl;
  same_closed = refl;
}
close_listeners-Kept t ((port, l) ∷ more) n =
    let a = close_listener-Kept l t port n in
    let b = close_listeners-Kept t more (close_listener l t port n) in
    record {
      same_nodes = b.same_nodes ∙ a.same_nodes;
      same_count = b.same_count ∙ a.same_count;
      others = λ i h. b.others i h ∙ a.others i h;
      same_closed = b.same_closed ∙ a.same_closed;
    }

-- The address of a closed transport leads nowhere.
pub record Closes (t : ℕ) (n n' : MemoryNetwork) : Type 0 where
  pub as_many : n'.transport_count ≡ n.transport_count
  pub freed : n'.nodes ≡ delete bytes_dec (n.transports t).addr n.nodes
  pub other : (i : ℕ) → i ≢ t → n'.transports i ≡ n.transports i

pub close-Closes :
    (t : ℕ) (n : MemoryNetwork) → (n.transports t).closed ≡ false → Closes t n (close t n)
unfolding close unregister mark_closed
close-Closes t n h = rw h (
    let k = close_listeners-Kept t (n.transports t).listeners (mark_closed t n) in
    record {
      as_many = k.same_count;
      freed = ap (delete bytes_dec (n.transports t).addr) k.same_nodes;
      other = λ i d. k.others i d ∙ at_other t i _ n.transports d;
    })
