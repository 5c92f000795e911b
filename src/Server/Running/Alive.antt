-- ===== src/Server/Running/Alive.antt =====
-- A running server stays one.
use unity_gaming_services_go.Prelude.{
  ℕ, ◌≡◌, ◌≢◌, refl, ap, sym, subst, ◌∙◌, List, [], ◌∷◌, All, Outcome, Bytes, arith, dec_lt,
  Bytes-discrete, Slice,
}
use unity_gaming_services_go.Sqp.Info.{max_metrics}
use unity_gaming_services_go.Server.Settings.{GoError, query_protocol_sqp}
use unity_gaming_services_go.LocalProxy.{unmarshal_event}
use unity_gaming_services_go.Server.{Server}
use unity_gaming_services_go.Server.Players.{
  player_joined, player_left, set_current_players, set_max_players, set_server_name, set_game_type,
  set_game_map,
}
use unity_gaming_services_go.Server.Channels.{
  receive_allocated, receive_deallocated, receive_error, receive_configuration,
}
use unity_gaming_services_go.Server.Metrics.{set_metric}
use unity_gaming_services_go.Server.Metrics.Laws.{IsReady, set_metric-metric, set_metric-refused}
use unity_gaming_services_go.Server.Events.{on_publish}
use unity_gaming_services_go.Server.Watcher.{watch}
use unity_gaming_services_go.Server.Queries.{Reading, Next, again, stopped, crashed as crash, round}
use unity_gaming_services_go.Server.Queries.Service.{IsServing, read-IsFine}
use unity_gaming_services_go.Server.Queries.Untouched.{round-outside}
use unity_gaming_services_go.Server.Running.{
  Action, sets_metric, published, watched, queried, Fate, goes, dies, after_call, after_round, act,
  act_on, run,
}
use unity_gaming_services_go.Server.Running.Parts.{endpoint, Keeps, on_publish-Keeps, watch-Keeps}
use unity_gaming_services_go.Server.Running.Fates.{
  Decodes, event-goes, watch-goes, delivery-server, watching-server,
}

-- The loop can serve, and the metrics are those that `Start` makes for SQP.
pub record IsRunning (s : Server) : Type 0 where
  pub serving : IsServing s
  pub ready : IsReady s.state.metrics

pub kept-IsRunning : (s t : Server) → Keeps s t → IsRunning s → IsRunning t
kept-IsRunning s t k h = record {
  serving = record {
    bound = λ e. h.serving.bound (sym (ap (λ x. x.0) k) ∙ e);
    responds = λ e. h.serving.responds (sym (ap (λ x. x.1) k) ∙ e);
    roomy = rw (ap (λ x. x.2) k) h.serving.roomy;
    window = rw (ap (λ x. x.3) k) h.serving.window;
  };
  ready = rw (ap (λ x. x.3) k) h.ready;
}

-- The server after a step runs, and the process goes on.
abbrev pub GoesOn : Server × Fate → Type 0
GoesOn p = IsRunning p.0 × (p.1 ≡ goes)

metric-GoesOn :
    (index value : ℕ) (s : Server) → IsRunning s → GoesOn (act (sets_metric index value) s)
unfolding act
metric-GoesOn index value s h =
    elim (Bytes-discrete s.current_config.query_type query_protocol_sqp) [
      | no other ↦ by ((set_metric-refused s index value).1 other) (h, refl)
      | yes sqp ↦ elim (dec_lt index max_metrics) [
        | no high ↦ by ((set_metric-refused s index value).0 (sqp, omega (arith, high))) (h, refl)
        | yes low ↦
            let (m, e, ready, len, values) = set_metric-metric s index value sqp h.ready low in
            by e (metrics_ready m ready, refl)
      ]
    ]
  where
    by :
        {r : Server × Outcome GoError (Unit {0})}
        → set_metric s index value ≡ r
        → GoesOn (after_call r)
        → GoesOn (after_call (set_metric s index value))
    by e = subst (λ r. GoesOn (after_call r)) (sym e)

    metrics_ready :
        (m : Slice ℕ) → IsReady m → IsRunning (record s { state = record s.state { metrics = m } })
    metrics_ready m ready = record {
      serving = record {
        bound = h.serving.bound;
        responds = h.serving.responds;
        roomy = h.serving.roomy;
        window = omega (arith, ready.within, ready.capacity);
      };
      ready = ready;
    }

round-GoesOn :
    (os : Bytes) (reading : Reading) (s : Server)
    → IsRunning s
    → GoesOn (act (queried os reading) s)
unfolding act round
round-GoesOn os reading s h =
    let fine = read-IsFine os s reading s.query_bind refl h.serving in
    ended (round os s reading).server (round os s reading).next fine.no_crash (record {
      serving = fine.serving;
      ready = rw (ap (λ x. x.0.metrics) (round-outside os s reading)) h.ready;
    })
  where
    ended : (t : Server) (next : Next) → next ≢ crash → IsRunning t → GoesOn (after_round t next)
    ended t again k r = (r, refl)
    ended t stopped k r = (r, refl)
    ended t crash k r = absurd (k refl)

pub act-GoesOn : (a : Action) (s : Server) → Decodes a → IsRunning s → GoesOn (act a s)
unfolding act player_joined player_left set_current_players set_max_players set_server_name
    set_game_type set_game_map receive_allocated receive_deallocated receive_error
    receive_configuration
act-GoesOn (sets_metric index value) s k h = metric-GoesOn index value s h
act-GoesOn (queried os reading) s k h = round-GoesOn os reading s h
act-GoesOn (published d c message) s k h = (
  kept-IsRunning s _
      (ap endpoint (delivery-server (on_publish d c message s)) ∙ on_publish-Keeps d c message s) h,
  unfold on_publish in event-goes (unmarshal_event d message) c s k,
)
act-GoesOn (watched write ev) s k h = (
  kept-IsRunning s _ (ap endpoint (watching-server (watch write s ev)) ∙ watch-Keeps write ev s) h,
  watch-goes write ev s k,
)
act-GoesOn a s k h = (kept-IsRunning s _ refl h, refl)

act_on-goes : (p : Server × Fate) (k : Server → Server × Fate) → p.1 ≡ goes → act_on p k ≡ k p.0
act_on-goes (s, goes) k e = refl
act_on-goes (s, dies) k e = absurd (cc)

-- Any actions on a running server whose events decode without a panic.
pub run-GoesOn :
    (actions : List Action) (s : Server)
    → All Decodes actions
    → IsRunning s
    → GoesOn (run actions s)
unfolding run
run-GoesOn [] s k h = (h, refl)
run-GoesOn (a ∷ actions) s (k, ks) h =
    let g = act-GoesOn a s k h in
    rw (act_on-goes (act a s) (λ t. run actions t) g.1) (run-GoesOn actions (act a s).0 ks g.0)
