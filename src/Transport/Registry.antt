-- ===== src/Transport/Registry.antt =====
-- memory.go: which node an address leads to.
use woolwire.Base.{
  Bool, Bool-cases, Bytes, List, Result, any, ap, arith, bytes_dec, false, if_cases, if_neg, if_pos,
  if◌then◌else◌, inl, inr, ite, none, not, refl, some, subst, sym, true, ℕ, ℕ_discrete, ◌<◌, ◌==◌,
  ◌∙◌, ◌≡◌, ◌≢◌,
}
use woolwire.Base.Maps.{lookup, put, lookup-put, lookup-delete}
use woolwire.Transport.{
  MemoryTransport, MemoryNetwork, Error, new_memory_network, at_number, new_transport, add_listener,
  is_listening, listen, close_listener, close,
}
use woolwire.Transport.Closing.{at_same, at_other, Closes, close-Closes}

-- Each address leads to a transport of that address.
pub record Registered (n : MemoryNetwork) (a : Bytes) (t : ℕ) : Type 0 where
  pub same_addr : (n.transports t).addr ≡ a
  pub is_open : (n.transports t).closed ≡ false
  pub counted : t < n.transport_count

abbrev pub Inv : MemoryNetwork → Type 0
Inv n = (a : Bytes) (t : ℕ) → lookup bytes_dec a n.nodes ≡ some t → Registered n a t

new_memory_network-Inv : Inv new_memory_network
unfolding new_memory_network lookup
new_memory_network-Inv a t h = cc

below : {t k : ℕ} → t < k → t ≢ k
below l e = omega (arith, l, e)

new_transport-Inv : (addr : Bytes) (n : MemoryNetwork) → Inv n → Inv (new_transport addr n).0
unfolding new_transport
new_transport-Inv addr n h a t p = elim (bytes_dec addr a) [
  | yes e ↦ subst (Registered (new_transport addr n).0 a) (found_new e) (newest e)
  | no d ↦ kept (h a t (found_old d))
]
  where
    stored :
        lookup bytes_dec a (put bytes_dec addr n.transport_count n.nodes)
        ≡ ite (bytes_dec addr a) (some n.transport_count) (lookup bytes_dec a n.nodes)
    stored = lookup-put bytes_dec addr a n.transport_count n.nodes

    found_new : addr ≡ a → n.transport_count ≡ t
    found_new e = ground (arith, sym (if_pos (bytes_dec addr a) e _ _) ∙ sym stored ∙ p)

    found_old : addr ≢ a → lookup bytes_dec a n.nodes ≡ some t
    found_old d = sym (if_neg (bytes_dec addr a) d _ _) ∙ sym stored ∙ p

    newest : addr ≡ a → Registered (new_transport addr n).0 a n.transport_count
    newest e = record {
      same_addr = ap (λ m. m.addr) (at_same n.transport_count _ n.transports) ∙ e;
      is_open = ap (λ m. m.closed) (at_same n.transport_count _ n.transports);
      counted = omega arith;
    }

    kept : Registered n a t → Registered (new_transport addr n).0 a t
    kept r = record {
      same_addr =
          ap (λ m. m.addr) (at_other n.transport_count t _ n.transports (below r.counted))
          ∙ r.same_addr;
      is_open =
          ap (λ m. m.closed) (at_other n.transport_count t _ n.transports (below r.counted))
          ∙ r.is_open;
      counted = omega (arith, r.counted);
    }

-- What does not change which transport an address leads to, nor whether it is open.
Inv-same :
    (n n' : MemoryNetwork)
    → n'.nodes ≡ n.nodes
    → n'.transport_count ≡ n.transport_count
    → ((t : ℕ)
        → ((n'.transports t).addr ≡ (n.transports t).addr)
          × ((n'.transports t).closed ≡ (n.transports t).closed))
    → Inv n
    → Inv n'
Inv-same n n' p q r h a t e =
    let k = h a t (ap (lookup bytes_dec a) (sym p) ∙ e) in
    record {
      same_addr = (r t).0 ∙ k.same_addr;
      is_open = (r t).1 ∙ k.is_open;
      counted = rw q k.counted;
    }

pub relisted :
    (t i : ℕ) (ls : List (ℕ × ℕ)) (f : ℕ → MemoryTransport)
    → ((at_number t (record (f t) { listeners = ls }) f i).addr ≡ (f i).addr)
      × ((at_number t (record (f t) { listeners = ls }) f i).closed ≡ (f i).closed)
relisted t i ls f = elim (ℕ_discrete i t) [
  | yes e ↦ rw e (ap (λ m. m.addr) (at_same t _ f), ap (λ m. m.closed) (at_same t _ f))
  | no d ↦ (ap (λ m. m.addr) (at_other t i _ f d), ap (λ m. m.closed) (at_other t i _ f d))
]

past_three :
    {A : Type 0} (P : A → Type 0) (a b c : Bool) (x y z w : A)
    → P x
    → P y
    → P z
    → P w
    → P (if a then x else if b then y else if c then z else w)
past_three P true b c x y z w p q r s = p
past_three P false true c x y z w p q r s = q
past_three P false false true x y z w p q r s = r
past_three P false false false x y z w p q r s = s

listen-Inv : (b : Bool) (t port : ℕ) (n : MemoryNetwork) → Inv n → Inv (listen b t port n).0
unfolding listen add_listener
listen-Inv b t port n h =
    past_three {A = MemoryNetwork × Result Error ℕ} (λ z. Inv z.0) (n.transports t).closed
      (is_listening port (n.transports t)) (not b) _ _ _ _ h h h
      (Inv-same n (add_listener t port n) refl refl (λ i. relisted t i _ n.transports) h)

close_listener-Inv : (l t port : ℕ) (n : MemoryNetwork) → Inv n → Inv (close_listener l t port n)
unfolding close_listener
close_listener-Inv l t port n h =
    if_cases {A = MemoryNetwork} Inv (any (λ i. i == l) n.closed_listeners) (λ _. h)
      (λ _. Inv-same n _ refl refl (λ i. relisted t i _ n.transports) h)

already_closed : (t : ℕ) (n : MemoryNetwork) → (n.transports t).closed ≡ true → close t n ≡ n
unfolding close
already_closed t n c = rw c refl

close-Inv : (t : ℕ) (n : MemoryNetwork) → Inv n → Inv (close t n)
close-Inv t n h = elim (Bool-cases (n.transports t).closed) [
  | inl c ↦ subst Inv (sym (stays c)) h
  | inr c ↦ freed_Inv (close-Closes t n c)
]
  where
    stays : (n.transports t).closed ≡ true → close t n ≡ n
    stays c = already_closed t n c

    freed_Inv : Closes t n (close t n) → Inv (close t n)
    freed_Inv k a i e = elim (bytes_dec (n.transports t).addr a) [
      | yes p ↦
          absurd (gone (sym (if_pos (bytes_dec (n.transports t).addr a) p _ _) ∙ sym stored ∙ e))
      | no d ↦
          moved (h a i (sym (if_neg (bytes_dec (n.transports t).addr a) d _ _) ∙ sym stored ∙ e)) d
    ]
      where
        stored :
            lookup bytes_dec a (close t n).nodes
            ≡ ite (bytes_dec (n.transports t).addr a) none (lookup bytes_dec a n.nodes)
        stored =
            ap (lookup bytes_dec a) k.freed
            ∙ lookup-delete bytes_dec (n.transports t).addr a n.nodes

        gone : none ≡ some i → ⊥
        gone q = cc

        moved : Registered n a i → (n.transports t).addr ≢ a → Registered (close t n) a i
        moved r d =
            let o = k.other i (λ q. d (ap (λ z. (n.transports z).addr) (sym q) ∙ r.same_addr)) in
            record {
              same_addr = ap (λ m. m.addr) o ∙ r.same_addr;
              is_open = ap (λ m. m.closed) o ∙ r.is_open;
              counted = rw k.as_many r.counted;
            }

-- The operations of the network and of its nodes, in any order.
pub data Reach : MemoryNetwork → Type 0 where
  start : Reach new_memory_network
  creates : {n : MemoryNetwork} (addr : Bytes) → Reach n → Reach (new_transport addr n).0
  listens :
      {n : MemoryNetwork} (has_socket : Bool) (t port : ℕ)
      → Reach n
      → Reach (listen has_socket t port n).0
  closes_listener : {n : MemoryNetwork} (l t port : ℕ) → Reach n → Reach (close_listener l t port n)
  closes : {n : MemoryNetwork} (t : ℕ) → Reach n → Reach (close t n)

pub Reach-Inv : (n : MemoryNetwork) → Reach n → Inv n
Reach-Inv n start = new_memory_network-Inv
Reach-Inv n (creates {n = m} addr h) = new_transport-Inv addr m (Reach-Inv m h)
Reach-Inv n (listens {n = m} b t port h) = listen-Inv b t port m (Reach-Inv m h)
Reach-Inv n (closes_listener {n = m} l t port h) = close_listener-Inv l t port m (Reach-Inv m h)
Reach-Inv n (closes {n = m} t h) = close-Inv t m (Reach-Inv m h)
