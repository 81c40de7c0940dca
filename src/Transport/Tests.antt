-- ===== src/Transport/Tests.antt =====
-- A network of three nodes, and the theorems on it.
use woolwire.Base.{arith, bytes_dec, codes, err, false, ok, refl, true, ℕ_discrete, ◌≡◌, ◌≢◌}
use woolwire.Base.Maps.{lookup, put, delete}
use woolwire.Transport.{
  MemoryNetwork, node_not_found, new_memory_network, new_transport, listen, dial, close,
}
use woolwire.Transport.Registry.{Reach, start, creates, listens}
use woolwire.Transport.Dialing.{dial-close_other, dial-close_duplicate, dial-listen}

program : Unit {0}
unfolding new_memory_network new_transport listen dial close lookup put delete bytes_dec ℕ_discrete
program = tt

-- Two nodes of one address, after a node of another.
abbrev three : MemoryNetwork
three =
    (new_transport (codes "a")
      (new_transport (codes "a") (new_transport (codes "b") new_memory_network).0).0).0

three-Reach : Reach three
three-Reach = creates (codes "a") (creates (codes "a") (creates (codes "b") start))

abbrev listening : MemoryNetwork
listening = (listen true 2 80 three).0

calls :
    (dial 0 (codes "a") 80 listening ≡ ok 0)
    × (dial 0 (codes "a") 80 (close 1 listening) ≡ err node_not_found)
unfolding program
calls = (refl, refl)

a_apart : codes "a" ≢ codes "b"
a_apart e = ground (arith, e)

dial-close_other_example :
    dial 2 (codes "b") 80 (close 1 listening) ≡ dial 2 (codes "b") 80 listening
unfolding program
dial-close_other_example =
    dial-close_other listening 1 2 (codes "b") 80 (listens true 2 80 three-Reach) refl a_apart
      (omega arith)

dial-close_duplicate_example :
    (((close 1 listening).transports 2).closed ≡ false)
    × (dial 0 (codes "a") 80 (close 1 listening) ≡ err node_not_found)
unfolding program
dial-close_duplicate_example =
    dial-close_duplicate listening 1 2 0 80 refl refl refl (omega arith) (omega arith)

dial-listen_run : dial 0 (codes "a") 80 listening ≡ ok three.listener_count
unfolding program
dial-listen_run = dial-listen three 2 0 80 refl refl refl refl
