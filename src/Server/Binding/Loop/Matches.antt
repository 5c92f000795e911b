-- ===== src/Server/Binding/Loop/Matches.antt =====
-- The loop of `handleQuery` at each of its points, in terms of the rounds of `Queries`.
use unity_gaming_services_go.Prelude.{
  ok, sym, subst, ◌∙◌, ◌≡◌, refl, ◌++◌, List, [], ◌∷◌, Bool, true, false, Option, none, some, panic,
  Bytes, ◌⊎◌, inl, inr, append-nil,
}
use unity_gaming_services_go.Proto.Challenge.{Readings}
use unity_gaming_services_go.Server.Settings.{GoError}
use unity_gaming_services_go.Server.{Server, QueryResponder, push_error}
use unity_gaming_services_go.Server.Queries.{
  answer_with, write_back, Reading, datagram, timed_out, closed_meanwhile, read_failed as failed,
  again, stopped, crashed, Turn, turn, round, handle_query, handle_reading, continue_turn,
}
use unity_gaming_services_go.Server.Binding.{Binding}
use unity_gaming_services_go.Server.Binding.Loop.{
  Work, writing, writing_checked, writing_timed, handing, write_failed, returned, panicked,
  report_read, response, Step, set_read_deadline_nil, read_from_udp_nil, return_reading,
  retry_reading, answered, refused, respond_panics, respond_nil, write_done, write_open,
  set_write_deadline, set_write_deadline_fails, set_write_deadline_nil, write_to, write_to_nil,
  sent, send_fails, return_writing, retry_writing,
}
use unity_gaming_services_go.Server.Binding.Loop.Append.{handle_query-snoc}

abbrev pub closes_bind : Server → Server
closes_bind s = record s { query_bind = some true }

pub open_round :
    (os : Bytes) (s : Server) (x : Reading)
    → s.query_bind ≡ some false
    → round os s x ≡ handle_reading os s x
unfolding round
open_round os s x e = rw e refl

pub datagram_round :
    (os : Bytes) (s : Server) (client d : Bytes) (r : Readings) (closes : Bool) (w : Option GoError)
    (p : QueryResponder)
    → s.query_bind ≡ some false
    → s.query_proto ≡ some p
    → round os s (datagram client d r closes w)
      ≡ answer_with s client closes w (response os s r client d p)
unfolding round
datagram_round os s client d r closes w p e h = rw (e, h) refl

-- The responder panics.
pub panic_round :
    (os : Bytes) (s : Server) (client d : Bytes) (r : Readings) (p q : QueryResponder)
    → s.query_bind ≡ some false
    → s.query_proto ≡ some p
    → response os s r client d p ≡ (q, panic)
    → round os s (datagram client d r false none)
      ≡ turn (record s { query_proto = some q }) [] crashed
panic_round os s client d r p q e h a =
    datagram_round os s client d r false none p e h ∙ (rw a refl)

pub no_responder_round :
    (os : Bytes) (s : Server) (client d : Bytes) (r : Readings)
    → s.query_bind ≡ some false
    → s.query_proto ≡ none
    → round os s (datagram client d r false none) ≡ turn s [] crashed
unfolding round
no_responder_round os s client d r e h = rw (e, h) refl

abbrev no_values : Readings
no_values = record { since = 0; purged = 0; epoch = 0; random = none; stored = 0 }

module _ (os : Bytes) (s0 : Server) where
  -- Some readings on which the loop of `Queries` gives this turn.
  abbrev pub Gives : Turn → Type 0
  Gives t = (xs : List Reading) × (handle_query os xs s0 ≡ t)

  Gives-round :
      {s : Server} {rep : List (Bytes × Bytes)} (x : Reading) {u : Turn}
      → Gives (turn s rep again)
      → round os s x ≡ u
      → Gives (continue_turn (turn s rep again) u)
  Gives-round {s} {rep} x g h =
      (g.0 ++ (x ∷ []), handle_query-snoc os g.0 x s0 (rw g.1 refl) ∙ (rw (g.1, h) refl))

  -- Between two rounds: nothing has happened since the last one, and the binding's flag is down.
  pub record Rested (s : Server) (rep : List (Bytes × Bytes)) : Type 0 where
    pub given : Gives (turn s rep again)
    pub bound : s.query_bind ≡ some false

  -- The responder has answered, and the rest of the round depends on the write.
  pub record Answering (s : Server) (rep : List (Bytes × Bytes)) (client resp : Bytes)
      : Type 0 where
    pub before : Server
    pub arrived : Bytes
    pub read_values : Readings
    pub given : Gives (turn before rep again)
    pub rest :
        (closes : Bool) (w : Option GoError)
        → round os before (datagram client arrived read_values closes w)
          ≡ write_back s client resp closes w
    pub bound : s.query_bind ≡ some false

  abbrev pub AnsweringSome : Server → List (Bytes × Bytes) → Type 0
  AnsweringSome s rep = (client : Bytes) × (resp : Bytes) × Answering s rep client resp

  -- A panic of the loop: of the responder, or at a connection that `Close` has forgotten.
  abbrev pub Panicked : Option Bool → Server → List (Bytes × Bytes) → Type 0
  Panicked conn s rep =
      Gives (turn s rep crashed) ⊎ ((conn ≡ none) × (u : Server) × Gives (turn u rep again))

  abbrev pub Matches : Option Bool → Work → Server → List (Bytes × Bytes) → Type 0
  Matches conn (writing client resp) s rep = Answering s rep client resp
  Matches conn (writing_checked client resp) s rep = Answering s rep client resp
  Matches conn (writing_timed client resp) s rep = Answering s rep client resp
  Matches conn (handing client resp) s rep = Answering s rep client resp
  Matches conn (write_failed e) s rep = AnsweringSome s rep
  Matches conn returned s rep = Gives (turn (closes_bind s) rep stopped)
  Matches conn panicked s rep = Panicked conn s rep
  Matches conn w s rep = Rested s rep

  bound-push : (e : GoError) (s : Server) → (push_error e s).query_bind ≡ s.query_bind
  unfolding push_error
  bound-push e s = refl

  bound-report : (e : Option GoError) (s : Server) → (report_read e s).query_bind ≡ s.query_bind
  bound-report none s = refl
  bound-report (some e) s = bound-push _ s

  failed_reading : Option GoError → Reading
  failed_reading none = timed_out
  failed_reading (some e) = failed e

  round-failed :
      (s : Server) (e : Option GoError)
      → s.query_bind ≡ some false
      → round os s (failed_reading e) ≡ turn (report_read e s) [] again
  unfolding failed_reading
  round-failed s none h = open_round os s timed_out h
  round-failed s (some e) h = open_round os s (failed e) h

  rested :
      {s u : Server} {rep : List (Bytes × Bytes)} (x : Reading)
      → Gives (turn s rep again)
      → round os s x ≡ turn u [] again
      → u.query_bind ≡ some false
      → Rested u (rep ++ [])
  rested x g h b = record { given = Gives-round x g h; bound = b }

  keep : (P : List (Bytes × Bytes) → Type 0) (rep : List (Bytes × Bytes)) → P rep → P (rep ++ [])
  keep P rep h = subst P (sym (append-nil rep)) h

  -- A method of the connection that `Close` has forgotten.
  lost :
      {conn : Option Bool} {s : Server} (u : Server) (rep : List (Bytes × Bytes))
      → conn ≡ none
      → Gives (turn u rep again)
      → Panicked conn s (rep ++ [])
  lost u rep c g = inr (c, u, keep (λ y. Gives (turn u y again)) rep g)

  answered-Answering :
      {s : Server} (rep : List (Bytes × Bytes)) (client d resp : Bytes) (r : Readings)
      (p q : QueryResponder)
      → s.query_proto ≡ some p
      → response os s r client d p ≡ (q, ok resp)
      → Rested s rep
      → Answering (record s { query_proto = some q }) (rep ++ []) client resp
  answered-Answering {s} rep client d resp r p q e a h = record {
    before = s;
    arrived = d;
    read_values = r;
    given = keep (λ y. Gives (turn s y again)) rep h.given;
    rest = λ closes w. datagram_round os s client d r closes w p h.bound e ∙ (rw a refl);
    bound = h.bound;
  }

  pub Step-Matches :
      {b : Binding} {s u : Server} {w v : Work} {out : List (Bytes × Bytes)}
      (rep : List (Bytes × Bytes))
      → Step os b s w v u out
      → Matches b.conn w s rep
      → Matches b.conn v u (rep ++ out)
  Step-Matches {s} rep (set_read_deadline_nil c) h = lost s rep c h.given
  Step-Matches {s} rep (read_from_udp_nil c) h = lost s rep c h.given
  Step-Matches {s} rep (return_reading d) h =
      Gives-round closed_meanwhile h.given (open_round os s closed_meanwhile h.bound)
  Step-Matches {s} rep (retry_reading {e} d) h =
      rested (failed_reading e) h.given (round-failed s e h.bound) (bound-report e s ∙ h.bound)
  Step-Matches rep (answered {client} {d} {resp} r p q e a) h =
      answered-Answering rep client d resp r p q e a h
  Step-Matches {s} rep (refused {client} {d} {e} r p q f a) h =
      rested (datagram client d r false none) h.given
        (datagram_round os s client d r false none p h.bound f ∙ (rw a refl))
        (bound-push _ _ ∙ h.bound)
  Step-Matches {s} rep (respond_panics {client} {d} r p q e a) h = inl (
      Gives-round (datagram client d r false none) h.given
        (panic_round os s client d r p q h.bound e a))
  Step-Matches {s} rep (respond_nil {client} {d} e) h = inl (
      Gives-round (datagram client d no_values false none) h.given
        (no_responder_round os s client d no_values h.bound e))
  Step-Matches {s} rep (write_open {client} {resp} d) h =
      keep (λ y. Answering s y client resp) rep h
  Step-Matches {s} rep (set_write_deadline {client} {resp} c) h =
      keep (λ y. Answering s y client resp) rep h
  Step-Matches {s} rep (write_to {client} {resp} c) h = keep (λ y. Answering s y client resp) rep h
  Step-Matches {s} rep (write_done d) h = keep (AnsweringSome s) rep (_, _, h)
  Step-Matches {s} rep (set_write_deadline_fails e c) h = keep (AnsweringSome s) rep (_, _, h)
  Step-Matches {s} rep (send_fails e) h = keep (AnsweringSome s) rep (_, _, h)
  Step-Matches rep (set_write_deadline_nil c) h = lost h.before rep c h.given
  Step-Matches rep (write_to_nil c) h = lost h.before rep c h.given
  Step-Matches rep (sent {client} c) h = record {
    given =
        Gives-round (datagram client h.arrived h.read_values false none) h.given
          (h.rest false none);
    bound = h.bound;
  }
  Step-Matches rep (return_writing d) (client, resp, h) =
      Gives-round (datagram client h.arrived h.read_values true none) h.given (h.rest true none)
  Step-Matches rep (retry_writing {e} d) (client, resp, h) =
      rested (datagram client h.arrived h.read_values false (some e)) h.given
        (h.rest false (some e)) (bound-push _ _ ∙ h.bound)
  Step-Matches {s} rep m h = keep (Rested s) rep h
