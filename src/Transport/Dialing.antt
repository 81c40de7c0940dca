-- ===== src/Transport/Dialing.antt =====
-- memory.go: where a call arrives, and what closing a node changes for the others.
use woolwire.Base.{
  Bytes, Option, ap, bytes_dec, err, false, if_neg, if_pos, if◌then◌else◌, none, ok, refl, some,
  sym, true, ℕ, ℕ_discrete, ◌∙◌, ◌≡◌, ◌≢◌,
}
use woolwire.Base.Maps.{lookup, delete, lookup-put, lookup-delete}
use woolwire.Transport.{
  MemoryNetwork, node_not_found, transport_closed, add_listener, is_listening, listen, accepted,
  accept_inbound, dial_node, dial, close,
}
use woolwire.Transport.Closing.{at_same, close-Closes}
use woolwire.Transport.Registry.{relisted, Reach, Reach-Inv}

same_dial :
    (n n' : MemoryNetwork) (from : ℕ) (target : Bytes) (port : ℕ)
    → n'.transports from ≡ n.transports from
    → lookup bytes_dec target n'.nodes ≡ lookup bytes_dec target n.nodes
    → ((t : ℕ) → lookup bytes_dec target n.nodes ≡ some t → n'.transports t ≡ n.transports t)
    → dial from target port n' ≡ dial from target port n
unfolding dial
same_dial n n' from target port p q r =
    rw (p, q)
      (ap (λ z. if (n.transports from).closed then err transport_closed else z)
        (reached (lookup bytes_dec target n.nodes) r))
  where
    reached :
        (o : Option ℕ)
        → ((t : ℕ) → o ≡ some t → n'.transports t ≡ n.transports t)
        → dial_node n' port o ≡ dial_node n port o
    reached none r = refl
    reached (some t) r = ap (accept_inbound port) (r t refl)

-- In a network that its operations have built, closing an open node changes nothing for calls from
-- other nodes to another address.
pub dial-close_other :
    (n : MemoryNetwork) (t from : ℕ) (target : Bytes) (port : ℕ)
    → Reach n
    → (n.transports t).closed ≡ false
    → (n.transports t).addr ≢ target
    → from ≢ t
    → dial from target port (close t n) ≡ dial from target port n
dial-close_other n t from target port h c d f =
    let k = close-Closes t n c in
    same_dial n (close t n) from target port (k.other from f)
      (ap (lookup bytes_dec target) k.freed
        ∙ lookup-delete bytes_dec (n.transports t).addr target n.nodes
        ∙ if_neg (bytes_dec (n.transports t).addr target) d _ _)
      (λ i e.
        k.other i
          (λ q. d (ap (λ z. (n.transports z).addr) (sym q) ∙ (Reach-Inv n h target i e).same_addr)))

-- If two open nodes have been made under one address, closing the older one leaves the newer one
-- open, and every call from another open node to that address fails for want of a node.
pub dial-close_duplicate :
    (n : MemoryNetwork) (older newer from port : ℕ)
    → (n.transports older).closed ≡ false
    → (n.transports newer).closed ≡ false
    → (n.transports from).closed ≡ false
    → newer ≢ older
    → from ≢ older
    → (((close older n).transports newer).closed ≡ false)
      × (dial from (n.transports older).addr port (close older n) ≡ err node_not_found)
unfolding dial
dial-close_duplicate n older newer from port c d e f g =
    let k = close-Closes older n c in
    (ap (λ m. m.closed) (k.other newer f) ∙ d, rw (k.other from g, e, gone (k.freed)) refl)
  where
    gone :
        (close older n).nodes ≡ delete bytes_dec (n.transports older).addr n.nodes
        → lookup bytes_dec (n.transports older).addr (close older n).nodes ≡ none
    gone p =
        ap (lookup bytes_dec (n.transports older).addr) p
        ∙ lookup-delete bytes_dec (n.transports older).addr (n.transports older).addr n.nodes
        ∙ if_pos (bytes_dec (n.transports older).addr (n.transports older).addr) refl _ _

reaches_new :
    (t port : ℕ) (n : MemoryNetwork)
    → (n.transports t).closed ≡ false
    → dial_node (add_listener t port n) port (some t) ≡ ok n.listener_count
unfolding dial_node accept_inbound accepted add_listener
reaches_new t port n c =
    ap (accept_inbound port) (at_same t _ n.transports)
    ∙ rw
        (
          c,
          lookup-put ℕ_discrete port port n.listener_count (n.transports t).listeners,
          if_pos {C = Option ℕ} (ℕ_discrete port port) refl (some n.listener_count)
              (lookup ℕ_discrete port (n.transports t).listeners),
        )
        refl

still_open :
    (t from port : ℕ) (n : MemoryNetwork)
    → (n.transports from).closed ≡ false
    → ((add_listener t port n).transports from).closed ≡ false
unfolding add_listener
still_open t from port n e = (relisted t from _ n.transports).1 ∙ e

at_nodes : (t port : ℕ) (n : MemoryNetwork) → (add_listener t port n).nodes ≡ n.nodes
unfolding add_listener
at_nodes t port n = refl

listened :
    (t port : ℕ) (n : MemoryNetwork)
    → (n.transports t).closed ≡ false
    → is_listening port (n.transports t) ≡ false
    → (listen true t port n).0 ≡ add_listener t port n
unfolding listen
listened t port n c f = rw (c, f) refl

dial-added :
    (n : MemoryNetwork) (t from port : ℕ)
    → lookup bytes_dec (n.transports t).addr n.nodes ≡ some t
    → (n.transports t).closed ≡ false
    → (n.transports from).closed ≡ false
    → dial from (n.transports t).addr port (add_listener t port n) ≡ ok n.listener_count
unfolding dial
dial-added n t from port r c e =
    rw (still_open t from port n e, at_nodes t port n, r) (reaches_new t port n c)

-- After a listen that gets its socket, on a free port of an open node to which its address leads,
-- a call from any open node to that address and port reaches the new listener.
pub dial-listen :
    (n : MemoryNetwork) (t from port : ℕ)
    → lookup bytes_dec (n.transports t).addr n.nodes ≡ some t
    → (n.transports t).closed ≡ false
    → (n.transports from).closed ≡ false
    → is_listening port (n.transports t) ≡ false
    → dial from (n.transports t).addr port (listen true t port n).0 ≡ ok n.listener_count
dial-listen n t from port r c e f =
    ap (dial from (n.transports t).addr port) (listened t port n c f)
    ∙ dial-added n t from port r c e
