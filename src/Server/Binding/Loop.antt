-- ===== src/Server/Binding/Loop.antt =====
-- The loop of `handleQuery` (query.go) with its data, a shared access at a time, against `Close`
-- (bind.go): `Binding` with the datagram, the answer, the errors and the server that a step of
-- `Queries` takes at once.
pub mod Append
pub mod Matches
pub mod Refines
pub mod Serves
pub mod Rounds
pub mod Realises
use unity_gaming_services_go.Prelude.{
  ◌++◌, ◌≡◌, List, [], ◌∷◌, Bool, true, false, Option, none, some, Outcome, ok, err, panic, Bytes,
  codes,
}
use unity_gaming_services_go.Proto.Challenge.{QueryError, Readings}
use unity_gaming_services_go.Server.Settings.{GoError, query, wrap, binding_closed}
use unity_gaming_services_go.Server.{Server, QueryResponder, push_error}
use unity_gaming_services_go.Server.Queries.{respond_with, read_into}
use unity_gaming_services_go.Server.Binding.{
  Binding, Reader, read, read_checked, read_timed, receiving, read_error, responding, write,
  write_checked, write_timed, sending, write_error, stopped, crashed, Closer, outside, CloseMove,
}

-- What the loop holds at each of its points: the error of `Read`, none for a timeout; the client
-- and the datagram it sent; the answer to it; the error of `Write`.
pub data Work : Type 0 where
  reading reading_checked reading_timed awaiting : Work
  read_failed : Option GoError → Work
  holding : Bytes → Bytes → Work
  writing writing_checked writing_timed handing : Bytes → Bytes → Work
  write_failed : GoError → Work
  returned panicked : Work

abbrev pub point : Work → Reader
point reading = read
point reading_checked = read_checked
point reading_timed = read_timed
point awaiting = receiving
point (read_failed e) = read_error
point (holding client d) = responding
point (writing client resp) = write
point (writing_checked client resp) = write_checked
point (writing_timed client resp) = write_timed
point (handing client resp) = sending
point (write_failed e) = write_error
point returned = stopped
point panicked = crashed

-- An error of `Read` that is no timeout is pushed.
abbrev pub report_read : Option GoError → Server → Server
report_read none s = s
report_read (some e) s = push_error (wrap (codes "query: error reading from socket") e) s

abbrev pub report_write : GoError → Server → Server
report_write e s = push_error (wrap (codes "query: error writing to socket") e) s

abbrev pub report_response : QueryError → Server → Server
report_response e s = push_error (wrap (codes "query: error responding") (query e)) s

-- `Respond` of the responder in use, on the cleared buffer with the datagram in it.
abbrev pub response :
    Bytes
    → Server
    → Readings
    → Bytes
    → Bytes
    → QueryResponder
    → QueryResponder × Outcome QueryError Bytes
response os s r client d p =
    respond_with os s.state r client (read_into s.query_read_buffer_size_bytes d) p

-- A step of the loop: what it holds after it, the server, and what is sent.
pub data Step (os : Bytes) (b : Binding) (s : Server)
    : Work → Work → Server → List (Bytes × Bytes) → Type 0 where
  read_done : b.done ≡ true → Step os b s reading (read_failed (some binding_closed)) s []
  read_open : b.done ≡ false → Step os b s reading reading_checked s []
  set_read_deadline : b.conn ≡ some false → Step os b s reading_checked reading_timed s []
  set_read_deadline_fails :
      {c : Bool} (e : GoError)
      → b.conn ≡ some c
      → Step os b s reading_checked
          (read_failed (some (wrap (codes "error setting read deadline") e)))
          s
          []
  set_read_deadline_nil : b.conn ≡ none → Step os b s reading_checked panicked s []
  read_from_udp : {c : Bool} → b.conn ≡ some c → Step os b s reading_timed awaiting s []
  read_from_udp_nil : b.conn ≡ none → Step os b s reading_timed panicked s []
  received : (client d : Bytes) → b.conn ≡ some false → Step os b s awaiting (holding client d) s []
  receive_fails : (e : Option GoError) → Step os b s awaiting (read_failed e) s []
  return_reading : {e : Option GoError} → b.done ≡ true → Step os b s (read_failed e) returned s []
  retry_reading :
      {e : Option GoError}
      → b.done ≡ false
      → Step os b s (read_failed e) reading (report_read e s) []
  answered :
      {client d resp : Bytes} (r : Readings) (p q : QueryResponder)
      → s.query_proto ≡ some p
      → response os s r client d p ≡ (q, ok resp)
      → Step os b s (holding client d) (writing client resp) (record s { query_proto = some q }) []
  refused :
      {client d : Bytes} {e : QueryError} (r : Readings) (p q : QueryResponder)
      → s.query_proto ≡ some p
      → response os s r client d p ≡ (q, err e)
      → Step os b s
          (holding client d)
          reading
          (report_response e (record s { query_proto = some q }))
          []
  respond_panics :
      {client d : Bytes} (r : Readings) (p q : QueryResponder)
      → s.query_proto ≡ some p
      → response os s r client d p ≡ (q, panic)
      → Step os b s (holding client d) panicked (record s { query_proto = some q }) []
  respond_nil :
      {client d : Bytes} → s.query_proto ≡ none → Step os b s (holding client d) panicked s []
  write_done :
      {client resp : Bytes}
      → b.done ≡ true
      → Step os b s (writing client resp) (write_failed binding_closed) s []
  write_open :
      {client resp : Bytes}
      → b.done ≡ false
      → Step os b s (writing client resp) (writing_checked client resp) s []
  set_write_deadline :
      {client resp : Bytes}
      → b.conn ≡ some false
      → Step os b s (writing_checked client resp) (writing_timed client resp) s []
  set_write_deadline_fails :
      {client resp : Bytes} {c : Bool} (e : GoError)
      → b.conn ≡ some c
      → Step os b s
          (writing_checked client resp)
          (write_failed (wrap (codes "error setting write deadline") e))
          s
          []
  set_write_deadline_nil :
      {client resp : Bytes}
      → b.conn ≡ none
      → Step os b s (writing_checked client resp) panicked s []
  write_to :
      {client resp : Bytes} {c : Bool}
      → b.conn ≡ some c
      → Step os b s (writing_timed client resp) (handing client resp) s []
  write_to_nil :
      {client resp : Bytes} → b.conn ≡ none → Step os b s (writing_timed client resp) panicked s []
  sent :
      {client resp : Bytes}
      → b.conn ≡ some false
      → Step os b s (handing client resp) reading s ((client, resp) ∷ [])
  send_fails :
      {client resp : Bytes} (e : GoError) → Step os b s (handing client resp) (write_failed e) s []
  return_writing : {e : GoError} → b.done ≡ true → Step os b s (write_failed e) returned s []
  retry_writing :
      {e : GoError} → b.done ≡ false → Step os b s (write_failed e) reading (report_write e s) []

-- The loop and `Close`, with the answers sent so far.
pub record Loop : Type 0 where
  pub bind : Binding
  pub closer : Closer
  pub work : Work
  pub server : Server
  pub replies : List (Bytes × Bytes)

-- A new binding, and the loop at its start.
abbrev pub loop : Server → Loop
loop s = record {
  bind = record { conn = some false; done = false };
  closer = outside;
  work = reading;
  server = s;
  replies = [];
}

-- Runs from `l`, interleaved in any order.
pub data Runs (os : Bytes) (l : Loop) : Loop → Type 0 where
  begin : Runs os l l
  step :
      {t : Loop} {w : Work} {s : Server} {out : List (Bytes × Bytes)}
      → Runs os l t
      → Step os t.bind t.server t.work w s out
      → Runs os l (record t { work = w; server = s; replies = t.replies ++ out })
  close :
      {t : Loop} {b : Binding} {c : Closer}
      → Runs os l t
      → CloseMove t.bind t.closer b c
      → Runs os l (record t { bind = b; closer = c })
