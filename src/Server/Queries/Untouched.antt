-- ===== src/Server/Queries/Untouched.antt =====
-- What a round of the loop leaves alone: the state that queries are answered from, which it only
-- reads, and what Stop looks at.
use unity_gaming_services_go.Proto.Wire.{QueryState}
use unity_gaming_services_go.Prelude.{
  ℕ, List, ◌≡◌, refl, Bool, true, false, Option, none, some, Outcome, ok, err, panic, Bytes,
}
use unity_gaming_services_go.Proto.Challenge.{QueryError, Readings}
use unity_gaming_services_go.Server.Settings.{GoError}
use unity_gaming_services_go.Server.{Server, Goroutine, QueryResponder, push_error}
use unity_gaming_services_go.Server.Queries.{
  respond_with, answer_with, write_back, Reading, datagram, timed_out, closed_meanwhile,
  read_failed, read_into, round, handle_datagram, handle_reading, read_from,
}

abbrev pub outside : Server → QueryState × ℕ × List Goroutine × Bool
outside s = (s.state, s.wg, s.goroutines, s.done)

write-outside :
    (s : Server) (client resp : Bytes) (closes : Bool) (w : Option GoError)
    → outside (write_back s client resp closes w).server ≡ outside s
unfolding push_error
write-outside s client resp true w = refl
write-outside s client resp false none = refl
write-outside s client resp false (some e) = refl

answer-outside :
    (s : Server) (client : Bytes) (closes : Bool) (w : Option GoError)
    (a : QueryResponder × Outcome QueryError Bytes)
    → outside (answer_with s client closes w a).server ≡ outside s
unfolding push_error
answer-outside s client closes w (p, ok resp) =
    write-outside (record s { query_proto = some p }) client resp closes w
answer-outside s client closes w (p, err e) = refl
answer-outside s client closes w (p, panic) = refl

datagram-outside :
    (os : Bytes) (s : Server) (client d : Bytes) (r : Readings) (closes : Bool) (w : Option GoError)
    (o : Option QueryResponder)
    → outside (handle_datagram os s client d r closes w o).server ≡ outside s
datagram-outside os s client d r closes w none = refl
datagram-outside os s client d r closes w (some p) =
    answer-outside s client closes w
      (respond_with os s.state r client (read_into s.query_read_buffer_size_bytes d) p)

reading-outside :
    (os : Bytes) (s : Server) (reading : Reading)
    → outside (handle_reading os s reading).server ≡ outside s
unfolding push_error
reading-outside os s (datagram client d r closes w) =
    datagram-outside os s client d r closes w s.query_proto
reading-outside os s timed_out = refl
reading-outside os s closed_meanwhile = refl
reading-outside os s (read_failed e) = refl

read-outside :
    (os : Bytes) (s : Server) (reading : Reading) (o : Option Bool)
    → outside (read_from os s reading o).server ≡ outside s
read-outside os s reading none = refl
read-outside os s reading (some true) = refl
read-outside os s reading (some false) = reading-outside os s reading

pub round-outside :
    (os : Bytes) (s : Server) (reading : Reading) → outside (round os s reading).server ≡ outside s
unfolding round
round-outside os s reading = read-outside os s reading s.query_bind
