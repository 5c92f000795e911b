-- ===== src/Server/Binding/Loop/Refines.antt =====
-- Whole runs of the loop of `handleQuery`, a shared access at a time, against `Queries`.
use unity_gaming_services_go.Prelude.{
  ap, sym, ◌∙◌, ◌≡◌, ◌≢◌, refl, List, [], Bool, false, Option, none, some, Bytes, ◌⊎◌, inl, inr,
}
use unity_gaming_services_go.Server.{Server}
use unity_gaming_services_go.Server.Queries.{Reading, again, stopped, crashed, turn, handle_query}
use unity_gaming_services_go.Server.Binding.{
  Binding, Closer, CloseMove, already_done, check_done, close_done, close_conn, forget_conn,
}
use unity_gaming_services_go.Server.Binding.Loop.{
  Work, reading, writing, writing_checked, writing_timed, handing, write_failed, returned, panicked,
  Loop, loop, Runs, begin, step, close,
}
use unity_gaming_services_go.Server.Binding.Loop.Matches.{
  closes_bind, Gives, Rested, Answering, Panicked, Matches, Step-Matches,
}

nil_kept : {b b' : Binding} {p c : Closer} → CloseMove b p b' c → b.conn ≡ none → b'.conn ≡ none
nil_kept (already_done d) e = e
nil_kept (check_done d) e = e
nil_kept close_done e = e
nil_kept (close_conn c) e = absurd (let k = sym c ∙ e in cc)
nil_kept forget_conn e = refl

module _ (os : Bytes) (s0 : Server) where
  Panicked-close :
      (o o' : Option Bool) (s : Server) (rep : List (Bytes × Bytes))
      → (o ≡ none → o' ≡ none)
      → Panicked os s0 o s rep
      → Panicked os s0 o' s rep
  Panicked-close o o' s rep k (inl g) = inl g
  Panicked-close o o' s rep k (inr g) = inr (k g.0, g.1, g.2)

  Matches-close :
      (o o' : Option Bool) (w : Work) (s : Server) (rep : List (Bytes × Bytes))
      → (o ≡ none → o' ≡ none)
      → Matches os s0 o w s rep
      → Matches os s0 o' w s rep
  Matches-close o o' panicked s rep k h = Panicked-close o o' s rep k h
  Matches-close o o' w s rep k h = h

  pub runs-Matches :
      {t : Loop}
      → Runs os (loop s0) t
      → s0.query_bind ≡ some false
      → Matches os s0 t.bind.conn t.work t.server t.replies
  unfolding handle_query
  runs-Matches begin e = record { given = ([], refl); bound = e }
  runs-Matches (step {t} r m) e = Step-Matches os s0 t.replies m (runs-Matches r e)
  runs-Matches (close {t} r m) e =
      Matches-close _ _ t.work t.server t.replies (nil_kept m) (runs-Matches r e)

  -- A state of the loop, and what `Queries` gives on some readings: the answers sent are the same;
  -- at the start of a round so is the server, and after a return up to the flag of the binding; a
  -- panic is one of the round's, or at a nil connection.
  pub record Agrees (t : Loop) : Type 0 where
    pub readings : List Reading
    pub replied : (handle_query os readings s0).replies ≡ t.replies
    pub rests : t.work ≡ reading → handle_query os readings s0 ≡ turn t.server t.replies again
    pub ends :
        t.work ≡ returned
        → handle_query os readings s0 ≡ turn (closes_bind t.server) t.replies stopped
    pub panics :
        t.work ≡ panicked → ((handle_query os readings s0).next ≡ crashed) ⊎ (t.bind.conn ≡ none)

  Rested-Agrees :
      (t : Loop)
      → t.work ≢ returned
      → t.work ≢ panicked
      → Rested os s0 t.server t.replies
      → Agrees t
  Rested-Agrees t h k m = record {
    readings = m.given.0;
    replied = ap (λ u. u.replies) m.given.1;
    rests = λ e. m.given.1;
    ends = λ e. absurd (h e);
    panics = λ e. absurd (k e);
  }

  Answering-Agrees :
      (t : Loop) (client resp : Bytes)
      → t.work ≢ reading
      → t.work ≢ returned
      → t.work ≢ panicked
      → Answering os s0 t.server t.replies client resp
      → Agrees t
  Answering-Agrees t client resp g h k m = record {
    readings = m.given.0;
    replied = ap (λ u. u.replies) m.given.1;
    rests = λ e. absurd (g e);
    ends = λ e. absurd (h e);
    panics = λ e. absurd (k e);
  }

  Panicked-Agrees :
      (t : Loop) → t.work ≡ panicked → Panicked os s0 t.bind.conn t.server t.replies → Agrees t
  Panicked-Agrees t p (inl g) = record {
    readings = g.0;
    replied = ap (λ u. u.replies) g.1;
    rests = λ e. absurd (cc);
    ends = λ e. absurd (cc);
    panics = λ e. inl (ap (λ u. u.next) g.1);
  }
  Panicked-Agrees t p (inr (c, u, g)) = record {
    readings = g.0;
    replied = ap (λ u. u.replies) g.1;
    rests = λ e. absurd (cc);
    ends = λ e. absurd (cc);
    panics = λ e. inr c;
  }

  returned-Agrees :
      (t : Loop)
      → t.work ≡ returned
      → Gives os s0 (turn (closes_bind t.server) t.replies stopped)
      → Agrees t
  returned-Agrees t p g = record {
    readings = g.0;
    replied = ap (λ u. u.replies) g.1;
    rests = λ e. absurd (cc);
    ends = λ e. g.1;
    panics = λ e. absurd (cc);
  }

  Matches-Agrees :
      (t : Loop) (w : Work) → t.work ≡ w → Matches os s0 t.bind.conn w t.server t.replies → Agrees t
  Matches-Agrees t (writing client resp) e m =
      Answering-Agrees t client resp (λ k. cc) (λ k. cc) (λ k. cc) m
  Matches-Agrees t (writing_checked client resp) e m =
      Answering-Agrees t client resp (λ k. cc) (λ k. cc) (λ k. cc) m
  Matches-Agrees t (writing_timed client resp) e m =
      Answering-Agrees t client resp (λ k. cc) (λ k. cc) (λ k. cc) m
  Matches-Agrees t (handing client resp) e m =
      Answering-Agrees t client resp (λ k. cc) (λ k. cc) (λ k. cc) m
  Matches-Agrees t (write_failed x) e m =
      Answering-Agrees t m.0 m.1 (λ k. cc) (λ k. cc) (λ k. cc) m.2
  Matches-Agrees t returned e m = returned-Agrees t e m
  Matches-Agrees t panicked e m = Panicked-Agrees t e m
  Matches-Agrees t w e m = Rested-Agrees t (λ k. cc) (λ k. cc) m

  -- Every run from a new binding comes to a state that the rounds agree with, on some readings.
  pub runs-Agrees : {t : Loop} → s0.query_bind ≡ some false → Runs os (loop s0) t → Agrees t
  runs-Agrees {t} e r = Matches-Agrees t t.work refl (runs-Matches r e)
