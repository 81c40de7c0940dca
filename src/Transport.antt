-- ===== src/Transport.antt =====
-- internal/transport/memory.go: the network of in-memory nodes. A transport and a listener are their
-- numbers in the network's tables; the loopback socket behind a listener is the listener's number,
-- and whether one can be had is an argument.
pub mod Closing
pub mod Registry
pub mod Dialing
mod Tests
use woolwire.Base.{
  Bool, Bytes, List, Option, Result, [], any, bytes_dec, err, false, if◌then◌else◌, none, not, ok,
  some, suc, true, ℕ, ℕ_discrete, ◌==◌, ◌∷◌,
}
use woolwire.Base.Maps.{lookup, put, delete}

pub record MemoryTransport : Type 0 where
  pub addr : Bytes
  pub listeners : List (ℕ × ℕ)
  pub closed : Bool

pub record MemoryNetwork : Type 0 where
  pub nodes : List (Bytes × ℕ)
  pub transports : ℕ → MemoryTransport
  pub transport_count : ℕ
  pub listener_count : ℕ
  pub closed_listeners : List ℕ

pub data Error : Type 0 where
  transport_closed port_in_use no_socket node_not_found target_closed not_listening : Error

abbrev unused : MemoryTransport
unused = record { addr = []; listeners = []; closed = true }

unfoldable pub new_memory_network : MemoryNetwork
new_memory_network = record {
  nodes = [];
  transports = λ _. unused;
  transport_count = 0;
  listener_count = 0;
  closed_listeners = [];
}

-- Another value at one place of a table.
abbrev pub at_number : ℕ → MemoryTransport → (ℕ → MemoryTransport) → ℕ → MemoryTransport
at_number t m f i = if i == t then m else f i

-- `NewTransport`, with the number of the transport.
unfoldable pub new_transport : Bytes → MemoryNetwork → MemoryNetwork × ℕ
unfolding put
new_transport addr n = (
  record n {
    transports =
        at_number n.transport_count (record { addr = addr; listeners = []; closed = false })
          n.transports;
    nodes = put bytes_dec addr n.transport_count n.nodes;
    transport_count = suc n.transport_count;
  },
  n.transport_count,
)

unfoldable pub unregister : Bytes → MemoryNetwork → MemoryNetwork
unfolding delete
unregister addr n = record n { nodes = delete bytes_dec addr n.nodes }

unfoldable pub add_listener : ℕ → ℕ → MemoryNetwork → MemoryNetwork
unfolding put
add_listener t port n = record n {
  transports =
      at_number t
        (record (n.transports t) {
          listeners = put ℕ_discrete port n.listener_count (n.transports t).listeners;
        })
        n.transports;
  listener_count = suc n.listener_count;
}

abbrev pub is_listening : ℕ → MemoryTransport → Bool
is_listening port m = elim (lookup ℕ_discrete port m.listeners) [ some l ↦ true | none ↦ false ]

unfoldable pub listen : Bool → ℕ → ℕ → MemoryNetwork → MemoryNetwork × Result Error ℕ
unfolding add_listener lookup
listen has_socket t port n =
    if (n.transports t).closed
    then (n, err transport_closed)
    else if is_listening port (n.transports t)
    then (n, err port_in_use)
    else if not has_socket
    then (n, err no_socket)
    else (add_listener t port n, ok n.listener_count)

-- `memoryListener.Close`
unfoldable pub close_listener : ℕ → ℕ → ℕ → MemoryNetwork → MemoryNetwork
unfolding delete
close_listener l t port n = if any (λ i. i == l) n.closed_listeners then n else record n {
  closed_listeners = l ∷ n.closed_listeners;
  transports =
      at_number t
        (record (n.transports t) { listeners = delete ℕ_discrete port (n.transports t).listeners })
        n.transports;
}

unfoldable pub accepted : Option ℕ → Result Error ℕ
accepted (some l) = ok l
accepted none = err not_listening

unfoldable pub accept_inbound : ℕ → MemoryTransport → Result Error ℕ
unfolding accepted lookup
accept_inbound port m =
    if m.closed then err target_closed else accepted (lookup ℕ_discrete port m.listeners)

unfoldable pub dial_node : MemoryNetwork → ℕ → Option ℕ → Result Error ℕ
unfolding accept_inbound
dial_node n port (some t) = accept_inbound port (n.transports t)
dial_node n port none = err node_not_found

-- `MemoryTransport.Dial`: the listener that the connection reaches.
unfoldable pub dial : ℕ → Bytes → ℕ → MemoryNetwork → Result Error ℕ
unfolding dial_node lookup
dial from target port n =
    if (n.transports from).closed
    then err transport_closed
    else dial_node n port (lookup bytes_dec target n.nodes)

-- The listeners of a transport that closes, one after the other.
unfoldable pub close_listeners : ℕ → List (ℕ × ℕ) → MemoryNetwork → MemoryNetwork
unfolding close_listener
close_listeners t [] n = n
close_listeners t ((port, l) ∷ more) n = close_listeners t more (close_listener l t port n)

unfoldable pub mark_closed : ℕ → MemoryNetwork → MemoryNetwork
mark_closed t n = record n {
  transports = at_number t (record (n.transports t) { closed = true; listeners = [] }) n.transports;
}

-- `MemoryTransport.Close`
unfoldable pub close : ℕ → MemoryNetwork → MemoryNetwork
unfolding mark_closed close_listeners unregister
close t n =
    if (n.transports t).closed
    then n
    else unregister (n.transports t).addr
        (close_listeners t (n.transports t).listeners (mark_closed t n))
