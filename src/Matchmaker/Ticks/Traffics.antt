-- ===== src/Matchmaker/Ticks/Traffics.antt =====
-- The requests of the loop, whatever is answered.
use unity_gaming_services_go.Prelude.{
  ℕ, ◌++◌, ◌≤◌, ◌≡◌, refl, sym, subst, ap, ◌∙◌, Bool, Bool-cases, true, false, inl, inr, List, [],
  ◌∷◌, All, Option, Outcome, ok, err, panic, length, append_assoc, append-nil, arith,
}
use unity_gaming_services_go.Server.Settings.{Config, GoError}
use unity_gaming_services_go.Server.{Server, set_config, push_error}
use unity_gaming_services_go.Matchmaker.{
  BackfillTicket, WebRequest, Web, Traffic, attempt, keep_alive, settle, settle_first, is_retry,
}
use unity_gaming_services_go.Matchmaker.Ticks.{Beat, tick, configured, go_on, keep_alive_backfill}
use unity_gaming_services_go.Matchmaker.Ticks.Sends.{IsFor, Grows, Grows-trans, attempt-Sends}

-- After a tick: the traffic has grown by at most four requests, and the configuration is the same.
abbrev Ticked : ℕ → Server → Traffic → Server × Traffic × Bool → Type 0
Ticked n s t r = Grows s.current_config n t r.1 × (r.0.current_config ≡ s.current_config)

settle-Ticked :
    (n : ℕ) (s : Server) (t : Traffic) (p : Traffic × Outcome GoError (Option BackfillTicket))
    → Grows s.current_config n t p.0
    → Ticked n s t (settle s p)
unfolding push_error
settle-Ticked n s t (u, ok x) h = (h, refl)
settle-Ticked n s t (u, err e) h = (h, refl)
settle-Ticked n s t (u, panic) h = (h, refl)

wider : (c : Config) (t u : Traffic) → Grows c 2 t u → Grows c 4 t u
wider c t u (l, e, f, b) = (l, e, f, omega (arith, b))

retried-Ticked :
    (web : Web) (s : Server) (t : Traffic) (p : Traffic × Outcome GoError (Option BackfillTicket))
    → Grows s.current_config 2 t p.0
    → Ticked 4 s t (settle_first web s p)
retried-Ticked web s t (u, ok x) h = settle-Ticked 4 s t (u, ok x) (wider s.current_config t u h)
retried-Ticked web s t (u, panic) h = settle-Ticked 4 s t (u, panic) (wider s.current_config t u h)
retried-Ticked web s t (u, err e) h = elim (Bool-cases (is_retry e)) [
  | inl again ↦ rw again (
      settle-Ticked 4 s t (attempt web s.current_config u) (
        Grows-trans s.current_config 2 2 4 t u (attempt web s.current_config u).0 (omega arith) h
          ((attempt-Sends s.current_config web).grows u)))
  | inr once ↦ rw once (settle-Ticked 4 s t (u, err e) (wider s.current_config t u h))
]

pub keep_alive-Ticked : (web : Web) (s : Server) (t : Traffic) → Ticked 4 s t (keep_alive web s t)
unfolding keep_alive
keep_alive-Ticked web s t =
    retried-Ticked web s t (attempt web s.current_config t)
      ((attempt-Sends s.current_config web).grows t)

-- What may be sent: at each tick at most four requests, for the configuration in use at the time.
abbrev pub Allowed : Config → List Beat → List WebRequest → Type 0
Allowed c [] l = l ≡ []
Allowed c (tick ∷ beats) l =
    (now : List WebRequest) × (later : List WebRequest) × (l ≡ now ++ later)
    × All (IsFor c) now
    × (length now ≤ 4)
    × Allowed c beats later
Allowed c (configured d ∷ beats) l = Allowed d beats l

silent : (c : Config) (beats : List Beat) → Allowed c beats []
silent c [] = refl
silent c (tick ∷ beats) = ([], [], refl, tt, omega arith, silent c beats)
silent c (configured d ∷ beats) = silent d beats

abbrev pub AllowedFrom : Config → List Beat → Traffic → Traffic → Type 0
AllowedFrom c beats t u = (l : List WebRequest) × (u.requests ≡ t.requests ++ l) × Allowed c beats l

went-Allowed :
    (c : Config) (beats : List Beat) (t : Traffic) (r : Server × Traffic × Bool)
    (k : Server → Traffic → Server × Traffic × Bool)
    → Grows c 4 t r.1
    → r.0.current_config ≡ c
    → ((u : Server) (v : Traffic) → AllowedFrom u.current_config beats v (k u v).1)
    → AllowedFrom c (tick ∷ beats) t (go_on r k).1
went-Allowed c beats t (u, v, true) k (l, e, h, b) same ih =
    let (l', e', a) = ih u v in
    (
      l ++ l',
      e' ∙ ap (λ x. x ++ l') e ∙ append_assoc t.requests l l',
      (l, l', refl, h, b, subst (λ d. Allowed d beats l') same a),
    )
went-Allowed c beats t (u, v, false) k (l, e, h, b) same ih =
    (l, e, (l, [], sym (append-nil l), h, b, silent c beats))

-- Whatever the local proxy and the matchmaker answer, over any ticks and changes of the
-- configuration: the loop of keepAliveBackfill sends at each tick at most four requests, each of
-- them the token request or an approval request with some token, for the configuration in use at
-- that tick, and sends nothing else.
pub keep_alive_backfill-Allowed :
    (web : Web) (beats : List Beat) (s : Server) (t : Traffic)
    → AllowedFrom s.current_config beats t (keep_alive_backfill web beats s t).1
unfolding keep_alive_backfill set_config
keep_alive_backfill-Allowed web [] s t = ([], sym (append-nil t.requests), refl)
keep_alive_backfill-Allowed web (configured c ∷ beats) s t =
    keep_alive_backfill-Allowed web beats (set_config c s) t
keep_alive_backfill-Allowed web (tick ∷ beats) s t =
    let h = keep_alive-Ticked web s t in
    went-Allowed s.current_config beats t (keep_alive web s t) _ h.0 h.1
      (λ u v. keep_alive_backfill-Allowed web beats u v)
