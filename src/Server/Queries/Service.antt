-- ===== src/Server/Queries/Service.antt =====
-- The loop of `handleQuery` over whole sequences of readings.
use unity_gaming_services_go.Prelude.{
  ℕ, ◌-◌, ◌≤◌, ◌≡◌, ◌≢◌, refl, List, [], ◌∷◌, Bool, true, false, Option, none, some, Outcome, ok,
  err, panic, Bytes, length, take, replicate, length-append, length-take, length-replicate, arith,
}
use unity_gaming_services_go.Proto.Challenge.{QueryError, Readings}
use unity_gaming_services_go.Proto.Wire.{QueryState}
use unity_gaming_services_go.Sqp.Sizes.{IsWindow}
use unity_gaming_services_go.Sqp.Faults as SqpFaults
use unity_gaming_services_go.A2s.Faults as A2sFaults
use unity_gaming_services_go.Server.Settings.{GoError}
use unity_gaming_services_go.Server.{
  Server, QueryResponder, a2s_responder, sqp_responder, push_error,
}
use unity_gaming_services_go.Server.Queries.{
  respond_with, answer_with, write_back, Reading, datagram, timed_out, closed_meanwhile,
  read_failed, Next, again, stopped, crashed, Turn, read_into, round, handle_query, handle_datagram,
  handle_reading, read_from, then_next,
}

pub length-read_into : (size : ℕ) (d : Bytes) → length (read_into size d) ≡ size
unfolding read_into
length-read_into size d = ground (
  arith,
  length-append (take size d) (replicate (size - length (take size d)) 0),
  length-take size d,
  length-replicate {A = ℕ} (size - length (take size d)) 0,
)

-- What the loop needs: a binding, a responder, a buffer of five bytes, metrics within their array.
pub record IsServing (s : Server) : Type 0 where
  pub bound : s.query_bind ≢ none
  pub responds : s.query_proto ≢ none
  pub roomy : 5 ≤ s.query_read_buffer_size_bytes
  pub window : IsWindow s.state.metrics

-- A turn that leaves the server serving, does not crash, and stops only on a closed binding.
pub record IsFine (t : Turn) : Type 0 where
  pub serving : IsServing t.server
  pub no_crash : t.next ≢ crashed
  pub stops_closed : t.next ≡ stopped → t.server.query_bind ≡ some true

pub respond_with-ne-panic :
    (os : Bytes) (st : QueryState) (r : Readings) (client buf : Bytes) (p : QueryResponder)
    → IsWindow st.metrics
    → 5 ≤ length buf
    → (respond_with os st r client buf p).1 ≢ panic
respond_with-ne-panic os st r client buf (sqp_responder q) w h =
    SqpFaults.respond-ne-panic st r client buf q w h
respond_with-ne-panic os st r client buf (a2s_responder q) w h =
    A2sFaults.respond-ne-panic (some st) os r client buf q h

write-IsFine :
    (s : Server) (client resp : Bytes) (closes : Bool) (w : Option GoError)
    → IsServing s
    → IsFine (write_back s client resp closes w)
unfolding push_error
write-IsFine s client resp true w h = record {
  serving = record { bound = λ e. cc; responds = h.responds; roomy = h.roomy; window = h.window };
  no_crash = λ e. cc;
  stops_closed = λ e. refl;
}
write-IsFine s client resp false none h = record {
  serving = h;
  no_crash = λ e. cc;
  stops_closed = λ e. cc;
}
write-IsFine s client resp false (some x) h = record {
  serving = record { bound = h.bound; responds = h.responds; roomy = h.roomy; window = h.window };
  no_crash = λ e. cc;
  stops_closed = λ e. cc;
}

answer-IsFine :
    (s : Server) (client : Bytes) (closes : Bool) (w : Option GoError)
    (a : QueryResponder × Outcome QueryError Bytes)
    → IsServing s
    → a.1 ≢ panic
    → IsFine (answer_with s client closes w a)
unfolding push_error
answer-IsFine s client closes w (p, ok resp) h k =
    write-IsFine (record s { query_proto = some p }) client resp closes w
      (record { bound = h.bound; responds = λ e. cc; roomy = h.roomy; window = h.window })
answer-IsFine s client closes w (p, err x) h k = record {
  serving = record { bound = h.bound; responds = λ e. cc; roomy = h.roomy; window = h.window };
  no_crash = λ e. cc;
  stops_closed = λ e. cc;
}
answer-IsFine s client closes w (p, panic) h k = absurd (k refl)

datagram-IsFine :
    (os : Bytes) (s : Server) (client d : Bytes) (r : Readings) (closes : Bool) (w : Option GoError)
    (o : Option QueryResponder)
    → s.query_proto ≡ o
    → IsServing s
    → IsFine (handle_datagram os s client d r closes w o)
datagram-IsFine os s client d r closes w none e h = absurd (h.responds e)
datagram-IsFine os s client d r closes w (some p) e h = answer-IsFine s client closes w _ h (
    respond_with-ne-panic os s.state r client _ p h.window
      (omega (arith, h.roomy, length-read_into s.query_read_buffer_size_bytes d)))

reading-IsFine :
    (os : Bytes) (s : Server) (reading : Reading)
    → IsServing s
    → IsFine (handle_reading os s reading)
unfolding push_error
reading-IsFine os s (datagram client d r closes w) h =
    datagram-IsFine os s client d r closes w _ refl h
reading-IsFine os s timed_out h = record { serving = h; no_crash = λ e. cc; stops_closed = λ e. cc }
reading-IsFine os s closed_meanwhile h = record {
  serving = record { bound = λ e. cc; responds = h.responds; roomy = h.roomy; window = h.window };
  no_crash = λ e. cc;
  stops_closed = λ e. refl;
}
reading-IsFine os s (read_failed x) h = record {
  serving = record { bound = h.bound; responds = h.responds; roomy = h.roomy; window = h.window };
  no_crash = λ e. cc;
  stops_closed = λ e. cc;
}

pub read-IsFine :
    (os : Bytes) (s : Server) (reading : Reading) (o : Option Bool)
    → s.query_bind ≡ o
    → IsServing s
    → IsFine (read_from os s reading o)
read-IsFine os s reading none e h = absurd (h.bound e)
read-IsFine os s reading (some true) e h = record {
  serving = h;
  no_crash = λ x. cc;
  stops_closed = λ x. e;
}
read-IsFine os s reading (some false) e h = reading-IsFine os s reading h

then-IsFine :
    (next : Next) (t later : Turn)
    → t.next ≡ next
    → IsFine t
    → IsFine later
    → IsFine (then_next next t later)
then-IsFine again t later e h k = record {
  serving = k.serving;
  no_crash = k.no_crash;
  stops_closed = k.stops_closed;
}
then-IsFine stopped t later e h k = h
then-IsFine crashed t later e h k = h

pub handle_query-IsFine :
    (os : Bytes) (readings : List Reading) (s : Server)
    → IsServing s
    → IsFine (handle_query os readings s)
unfolding handle_query
handle_query-IsFine os [] s h = record { serving = h; no_crash = λ e. cc; stops_closed = λ e. cc }
handle_query-IsFine os (reading ∷ readings) s h =
    let fine = read-IsFine os s reading s.query_bind refl h in
    then-IsFine (round os s reading).next (round os s reading) _ refl fine
      (handle_query-IsFine os readings (round os s reading).server fine.serving)
