-- ===== src/Server/Queries.antt =====
-- query.go and bind.go: the loop that reads queries from the UDP binding and answers them. `query_bind`
-- is whether the binding is closed; the connection itself is what the rounds of the loop are given.
pub mod Service
pub mod Handshake
pub mod Untouched
pub mod Crashes
pub mod InfoRounds
pub mod Clients
use unity_gaming_services_go.Prelude.{
  ℕ, ◌+◌, ◌-◌, ◌++◌, ◌>>=◌, if◌then◌else◌, List, [], ◌∷◌, Bool, true, false, Option, none, some,
  Outcome, ok, err, panic, Bytes, codes, length, take, replicate, bytes_eq,
}
use unity_gaming_services_go.Proto.Challenge.{QueryError, QueryBase, Readings}
use unity_gaming_services_go.Proto.Wire.{QueryState}
use unity_gaming_services_go.Sqp.{respond as sqp_respond, new_query_responder as new_sqp_responder}
use unity_gaming_services_go.A2s.{respond as a2s_respond, new_query_responder as new_a2s_responder}
use unity_gaming_services_go.Server.Settings.{
  Config, GoError, query, wrap, wrapped, binding_closed, unsupported_query_type, query_protocol_a2s,
  query_protocol_sqp,
}
use unity_gaming_services_go.Server.{
  Server, QueryResponder, a2s_responder, sqp_responder, query_handler, push_error,
}

-- Package net: the address, the listener, the sizes of its buffers.
pub record Network : Type 0 where
  pub resolve : Bytes → Outcome GoError (Unit {0})
  pub listen : Bytes → Outcome GoError (Unit {0})
  pub set_read_buffer : ℕ → Outcome GoError (Unit {0})
  pub set_write_buffer : ℕ → Outcome GoError (Unit {0})

-- `newUDPBinding`, as its `done` flag.
unfoldable pub new_udp_binding : Network → Bytes → ℕ → ℕ → Outcome GoError Bool
new_udp_binding net address read_size write_size = do
  _ ← net.resolve address
  _ ← net.listen address
  _ ← wrapped (codes "error setting read buffer") (net.set_read_buffer read_size)
  _ ← wrapped (codes "error setting write buffer") (net.set_write_buffer write_size)
  ok false

abbrev pub with_binding : Server → Outcome GoError Bool → Server × Outcome GoError (Unit {0})
with_binding s (ok done) = (
  record s { query_bind = some done; wg = s.wg + 1; goroutines = query_handler ∷ s.goroutines },
  ok tt,
)
with_binding s (err e) = (record s { query_bind = none }, err e)
with_binding s panic = (record s { query_bind = none }, panic)

-- The old binding is closed and forgotten, whether or not there is a new one. `handleQuery` is
-- started as a goroutine.
unfoldable pub restart_query_endpoint :
    Network → Config → Server → Server × Outcome GoError (Unit {0})
unfolding new_udp_binding
restart_query_endpoint net c s = with_binding s (
    new_udp_binding net (58 ∷ c.query_port) s.query_read_buffer_size_bytes
      s.query_write_buffer_size_bytes)

unfoldable pub switch_query_protocol :
    Network → Config → Server → Server × Outcome GoError (Unit {0})
unfolding restart_query_endpoint
switch_query_protocol net c s =
    if bytes_eq c.query_type query_protocol_a2s
    then restart_query_endpoint net c
        (record s { query_proto = some (a2s_responder new_a2s_responder) })
    else if bytes_eq c.query_type query_protocol_sqp
    then restart_query_endpoint net c
        (record s { query_proto = some (sqp_responder new_sqp_responder) })
    else (s, err unsupported_query_type)

-- `Respond` of the responder in use. `os` is runtime.GOOS.
abbrev sqp_turn : QueryBase × Outcome QueryError Bytes → QueryResponder × Outcome QueryError Bytes
sqp_turn p = (sqp_responder p.0, p.1)

abbrev a2s_turn : QueryBase × Outcome QueryError Bytes → QueryResponder × Outcome QueryError Bytes
a2s_turn p = (a2s_responder p.0, p.1)

abbrev pub respond_with :
    Bytes
    → QueryState
    → Readings
    → Bytes
    → Bytes
    → QueryResponder
    → QueryResponder × Outcome QueryError Bytes
respond_with os st r client buf (sqp_responder q) = sqp_turn (sqp_respond (some st) r client buf q)
respond_with os st r client buf (a2s_responder q) =
    a2s_turn (a2s_respond (some st) os r client buf q)

-- What a read from the binding gives: a datagram with the clock and random readings of its
-- handling, and with what its answer meets (whether the binding is closed before, an error of
-- the write); a timeout; another error; an error because the binding is closed during the read.
pub data Reading : Type 0 where
  datagram : Bytes → Bytes → Readings → Bool → Option GoError → Reading
  timed_out closed_meanwhile : Reading
  read_failed : GoError → Reading

-- How a round of the loop ends.
pub data Next : Type 0 where
  again stopped crashed : Next

-- `replies` are the answers written, each to its address.
pub record Turn : Type 0 where
  pub server : Server
  pub replies : List (Bytes × Bytes)
  pub next : Next

abbrev pub turn : Server → List (Bytes × Bytes) → Next → Turn
turn s replies next = record { server = s; replies = replies; next = next }

-- The buffer: cleared, and then written over with what fits of the datagram.
unfoldable pub read_into : ℕ → Bytes → Bytes
read_into size d = take size d ++ replicate (size - length (take size d)) 0

abbrev closed : Option Bool → Option Bool
closed none = none
closed (some done) = some true

-- `Close` of the server's binding, when it has one.
unfoldable pub close : Server → Server
close s = record s { query_bind = closed s.query_bind }

-- `Write` and what follows it.
abbrev pub write_back : Server → Bytes → Bytes → Bool → Option GoError → Turn
write_back s client resp true w = turn (record s { query_bind = some true }) [] stopped
write_back s client resp false none = turn s ((client, resp) ∷ []) again
write_back s client resp false (some e) =
    turn (push_error (wrap (codes "query: error writing to socket") e) s) [] again

abbrev pub answer_with :
    Server → Bytes → Bool → Option GoError → QueryResponder × Outcome QueryError Bytes → Turn
answer_with s client closes w (p, ok resp) =
    write_back (record s { query_proto = some p }) client resp closes w
answer_with s client closes w (p, err e) =
    turn
      (push_error (wrap (codes "query: error responding") (query e))
        (record s { query_proto = some p }))
      [] again
answer_with s client closes w (p, panic) = turn (record s { query_proto = some p }) [] crashed

abbrev pub handle_datagram :
    Bytes → Server → Bytes → Bytes → Readings → Bool → Option GoError → Option QueryResponder → Turn
handle_datagram os s client d r closes w none = turn s [] crashed
handle_datagram os s client d r closes w (some p) =
    answer_with s client closes w
      (respond_with os s.state r client (read_into s.query_read_buffer_size_bytes d) p)

abbrev pub handle_reading : Bytes → Server → Reading → Turn
handle_reading os s (datagram client d r closes w) =
    handle_datagram os s client d r closes w s.query_proto
handle_reading os s timed_out = turn s [] again
handle_reading os s closed_meanwhile = turn (record s { query_bind = some true }) [] stopped
handle_reading os s (read_failed e) =
    turn (push_error (wrap (codes "query: error reading from socket") e) s) [] again

abbrev pub read_from : Bytes → Server → Reading → Option Bool → Turn
read_from os s reading none = turn s [] crashed
read_from os s reading (some true) = turn s [] stopped
read_from os s reading (some false) = handle_reading os s reading

-- One round of the loop of `handleQuery`. A closed binding ends it before anything is read.
unfoldable pub round : Bytes → Server → Reading → Turn
unfolding push_error read_into
round os s reading = read_from os s reading s.query_bind

abbrev pub continue_turn : Turn → Turn → Turn
continue_turn t later = turn later.server (t.replies ++ later.replies) later.next

abbrev pub then_next : Next → Turn → Turn → Turn
then_next again t later = continue_turn t later
then_next stopped t later = t
then_next crashed t later = t

-- The loop, for as many rounds as there are readings.
unfoldable pub handle_query : Bytes → List Reading → Server → Turn
unfolding round
handle_query os [] s = turn s [] again
handle_query os (reading ∷ readings) s =
    let t = round os s reading in then_next t.next t (handle_query os readings t.server)
