-- ===== src/Server/Binding/Loop/Realises.antt =====
-- Each turn of the loop in `Queries` as a run of the loop a shared access at a time.
use unity_gaming_services_go.Prelude.{
  sym, subst, ◌∙◌, ◌≡◌, refl, ◌++◌, List, [], ◌∷◌, Bool, true, false, Option, none, some, Outcome,
  ok, err, panic, Bytes, append-nil, append_assoc,
}
use unity_gaming_services_go.Proto.Challenge.{QueryError, Readings}
use unity_gaming_services_go.Server.Settings.{GoError}
use unity_gaming_services_go.Server.{Server, QueryResponder, push_error}
use unity_gaming_services_go.Server.Queries.{
  answer_with, write_back, Reading, datagram, timed_out, closed_meanwhile, read_failed as failed,
  Next, again, stopped, crashed, Turn, round, handle_query, handle_datagram, handle_reading,
  then_next,
}
use unity_gaming_services_go.Server.Binding.{
  Binding, Closer, outside, marked, check_done, close_done,
}
use unity_gaming_services_go.Server.Binding.Loop.{
  Work, reading, awaiting, holding, writing, handing, returned, panicked, response, Step, read_open,
  set_read_deadline, read_from_udp, received, receive_fails, return_reading, retry_reading,
  answered, refused, respond_panics, respond_nil, write_done, write_open, set_write_deadline,
  write_to, sent, send_fails, return_writing, retry_writing, Loop, loop, Runs, begin, step, close,
}
use unity_gaming_services_go.Server.Binding.Loop.Matches.{closes_bind, open_round}

-- The loop while `Close` has not been called.
abbrev pub open_loop : Work → Server → List (Bytes × Bytes) → Loop
open_loop w s rep = record {
  bind = record { conn = some false; done = false };
  closer = outside;
  work = w;
  server = s;
  replies = rep;
}

-- How the loop stands after a turn that leaves this server: at the start of a round, returned, or
-- panicked.
abbrev pub Ends : Next → Server → Loop → Type 0
Ends again s t = (t ≡ open_loop reading s t.replies) × (s.query_bind ≡ some false)
Ends stopped s t = (t.work ≡ returned) × (closes_bind t.server ≡ s)
Ends crashed s t = (t.work ≡ panicked) × (t.server ≡ s)

pushed : (e : GoError) (s : Server) → (push_error e s).query_bind ≡ s.query_bind
unfolding push_error
pushed e s = refl

module _ (os : Bytes) (l : Loop) where
  -- A run that ends as the turn says, with its answers behind those sent before.
  abbrev pub Realised : List (Bytes × Bytes) → Turn → Type 0
  Realised rep u =
      (t : Loop) × Runs os l t × (t.replies ≡ rep ++ u.replies) × Ends u.next u.server t

  -- A step that sends nothing.
  silent :
      {w v : Work} {s u : Server} {rep : List (Bytes × Bytes)} {b : Binding} {c : Closer}
      → Runs os l (record { bind = b; closer = c; work = w; server = s; replies = rep })
      → Step os b s w v u []
      → Runs os l (record { bind = b; closer = c; work = v; server = u; replies = rep })
  silent {v} {u} {rep} {b} {c} r m =
      subst (λ y. Runs os l (record { bind = b; closer = c; work = v; server = u; replies = y }))
        (append-nil rep) (step r m)

  shut :
      {w : Work} {s : Server} {rep : List (Bytes × Bytes)}
      → Runs os l (open_loop w s rep)
      → Runs os l (record {
        bind = record { conn = some false; done = true };
        closer = marked;
        work = w;
        server = s;
        replies = rep;
      })
  shut r = close (close r (check_done refl)) close_done

  awaits :
      {s : Server} {rep : List (Bytes × Bytes)}
      → Runs os l (open_loop reading s rep)
      → Runs os l (open_loop awaiting s rep)
  awaits r =
      silent (silent (silent r (read_open refl)) (set_read_deadline refl)) (read_from_udp refl)

  hands :
      {client resp : Bytes} {s : Server} {rep : List (Bytes × Bytes)}
      → Runs os l (open_loop (writing client resp) s rep)
      → Runs os l (open_loop (handing client resp) s rep)
  hands r = silent (silent (silent r (write_open refl)) (set_write_deadline refl)) (write_to refl)

  nothing : (rep : List (Bytes × Bytes)) → rep ≡ rep ++ []
  nothing rep = sym (append-nil rep)

  write_back-Realised :
      (s : Server) (rep : List (Bytes × Bytes)) (client resp : Bytes) (closes : Bool)
      (w : Option GoError)
      → s.query_bind ≡ some false
      → Runs os l (open_loop (writing client resp) s rep)
      → Realised rep (write_back s client resp closes w)
  write_back-Realised s rep client resp true w h r = (
    _,
    silent (silent (shut r) (write_done refl)) (return_writing refl),
    nothing rep,
    (refl, refl),
  )
  write_back-Realised s rep client resp false none h r =
      (_, step (hands r) (sent refl), refl, (refl, h))
  write_back-Realised s rep client resp false (some e) h r = (
    _,
    silent (silent (hands r) (send_fails e)) (retry_writing refl),
    nothing rep,
    (refl, pushed _ s ∙ h),
  )

  answer_with-Realised :
      (s : Server) (rep : List (Bytes × Bytes)) (client d : Bytes) (r : Readings) (closes : Bool)
      (w : Option GoError) (p : QueryResponder) (a : QueryResponder × Outcome QueryError Bytes)
      → s.query_bind ≡ some false
      → s.query_proto ≡ some p
      → response os s r client d p ≡ a
      → Runs os l (open_loop (holding client d) s rep)
      → Realised rep (answer_with s client closes w a)
  answer_with-Realised s rep client d r closes w p (q, ok resp) h e a run =
      write_back-Realised (record s { query_proto = some q }) rep client resp closes w h
        (silent run (answered r p q e a))
  answer_with-Realised s rep client d r closes w p (q, err x) h e a run =
      (_, silent run (refused r p q e a), nothing rep, (refl, pushed _ _ ∙ h))
  answer_with-Realised s rep client d r closes w p (q, panic) h e a run =
      (_, silent run (respond_panics r p q e a), nothing rep, (refl, refl))

  handle_datagram-Realised :
      (s : Server) (rep : List (Bytes × Bytes)) (client d : Bytes) (r : Readings) (closes : Bool)
      (w : Option GoError) (o : Option QueryResponder)
      → s.query_bind ≡ some false
      → s.query_proto ≡ o
      → Runs os l (open_loop (holding client d) s rep)
      → Realised rep (handle_datagram os s client d r closes w o)
  handle_datagram-Realised s rep client d r closes w none h e run =
      (_, silent run (respond_nil e), nothing rep, (refl, refl))
  handle_datagram-Realised s rep client d r closes w (some p) h e run =
      answer_with-Realised s rep client d r closes w p _ h e refl run

  handle_reading-Realised :
      (s : Server) (rep : List (Bytes × Bytes)) (x : Reading)
      → s.query_bind ≡ some false
      → Runs os l (open_loop reading s rep)
      → Realised rep (handle_reading os s x)
  handle_reading-Realised s rep (datagram client d r closes w) h run =
      handle_datagram-Realised s rep client d r closes w s.query_proto h refl
        (silent (awaits run) (received client d refl))
  handle_reading-Realised s rep timed_out h run = (
    _,
    silent (silent (awaits run) (receive_fails none)) (retry_reading refl),
    nothing rep,
    (refl, h),
  )
  handle_reading-Realised s rep closed_meanwhile h run = (
    _,
    silent (silent (shut (awaits run)) (receive_fails none)) (return_reading refl),
    nothing rep,
    (refl, refl),
  )
  handle_reading-Realised s rep (failed e) h run = (
    _,
    silent (silent (awaits run) (receive_fails (some e))) (retry_reading refl),
    nothing rep,
    (refl, pushed _ s ∙ h),
  )

  -- After a turn that lets the loop go on, the next one is realised behind it.
  then_next-Realised :
      (next : Next) (rep : List (Bytes × Bytes)) (t later : Turn)
      → t.next ≡ next
      → Realised rep t
      → ((mid : List (Bytes × Bytes))
          → t.server.query_bind ≡ some false
          → Runs os l (open_loop reading t.server mid)
          → Realised mid later)
      → Realised rep (then_next next t later)
  then_next-Realised again rep t later e (u, r, reps, ends) k =
      let x = subst (λ n. Ends n t.server u) e ends in
      let y = k u.replies x.1 (subst (Runs os l) x.0 r) in
      (y.0, y.1, y.2 ∙ (rw (reps, append_assoc rep t.replies later.replies) refl), y.3)
  then_next-Realised stopped rep t later e h k = h
  then_next-Realised crashed rep t later e h k = h

  handle_query-from :
      (xs : List Reading) (s : Server) (rep : List (Bytes × Bytes))
      → s.query_bind ≡ some false
      → Runs os l (open_loop reading s rep)
      → Realised rep (handle_query os xs s)
  unfolding handle_query
  handle_query-from [] s rep h run = (_, run, nothing rep, (refl, h))
  handle_query-from (x ∷ xs) s rep h run =
      let t = round os s x in
      then_next-Realised t.next rep t (handle_query os xs t.server) refl
        (subst (Realised rep) (sym (open_round os s x h)) (handle_reading-Realised s rep x h run))
        (λ mid b r. handle_query-from xs t.server mid b r)

-- On a server with an open binding, each turn of the rounds is that of some run.
pub handle_query-Realised :
    (os : Bytes) (xs : List Reading) (s : Server)
    → s.query_bind ≡ some false
    → Realised os (loop s) [] (handle_query os xs s)
handle_query-Realised os xs s h = handle_query-from os (loop s) xs s [] h begin
