-- ===== src/Server/Running/Started.antt =====
-- From `Start` on.
use unity_gaming_services_go.Prelude.{
  ℕ, zero, suc, ◌+◌, ◌≡◌, refl, ap, ◌∙◌, inl, inr, Bool, Bool-cases, some, Outcome, ok, err, panic,
  bytes_eq, replicate, get_or, arith,
}
use unity_gaming_services_go.Proto.Challenge.{no_challenges}
use unity_gaming_services_go.Sqp.Info.{max_metrics}
use unity_gaming_services_go.LocalProxy.{Client}
use unity_gaming_services_go.LocalProxy.Decimal.{ℤ}
use unity_gaming_services_go.Server.Settings.{
  Config, new_config_from_file, GoError, query_protocol_a2s, query_protocol_sqp,
}
use unity_gaming_services_go.Server.{Server, a2s_responder, sqp_responder, set_config}
use unity_gaming_services_go.Server.Metrics.Laws.{IsReady}
use unity_gaming_services_go.Server.Events.{Proxy, make_client, started, with_id, listen_for_events}
use unity_gaming_services_go.Server.Queries.{
  Network, with_binding, restart_query_endpoint, switch_query_protocol,
}
use unity_gaming_services_go.Server.Lifecycle.{
  Host, set_defaults, start_watching, listen, start_with, start,
}
use unity_gaming_services_go.Server.Lifecycle.Shutdown.{step-ok}
use unity_gaming_services_go.Server.Lifecycle.Serving.{IsPrepared, started_server-IsServing}
use unity_gaming_services_go.Server.Running.Alive.{IsRunning}

binding-state : (s : Server) (r : Outcome GoError Bool) → (with_binding s r).0.state ≡ s.state
binding-state s (ok b) = refl
binding-state s (err e) = refl
binding-state s panic = refl

switch-state :
    (net : Network) (c : Config) (s : Server) → (switch_query_protocol net c s).0.state ≡ s.state
unfolding switch_query_protocol restart_query_endpoint
switch-state net c s = elim (Bool-cases (bytes_eq c.query_type query_protocol_a2s)) [
  | inl a2s ↦
      rw a2s (binding-state (record s { query_proto = some (a2s_responder no_challenges) }) _)
  | inr other ↦ elim (Bool-cases (bytes_eq c.query_type query_protocol_sqp)) [
    | inl sqp ↦
        rw (other, sqp)
          (binding-state (record s { query_proto = some (sqp_responder no_challenges) }) _)
    | inr neither ↦ rw (other, neither) refl
  ]
]

started-state :
    (c : Client) (s : Server) (r : Outcome GoError (Unit {0})) → (started c s r).0.state ≡ s.state
started-state c s (ok u) = refl
started-state c s (err e) = refl
started-state c s panic = refl

identified-state :
    (p : Proxy) (s : Server) (r : Outcome GoError ℤ) → (with_id p s r).0.state ≡ s.state
identified-state p s (ok id) =
    let c = make_client s.server_type s.current_config.local_proxy_url id in
    started-state c s (p.start c)
identified-state p s (err e) = refl
identified-state p s panic = refl

listen-metrics :
    (host : Host) (c : Config) (s : Server)
    → (listen host (start_watching host c s)).0.state.metrics ≡ s.state.metrics
unfolding listen listen_for_events start_watching
listen-metrics host c s =
    let u = start_watching host c s in
    ap (λ st. st.metrics)
      (identified-state host.proxy (record u { wg = u.wg + 1 })
        (host.proxy.int64_of u.current_config.server_id))

get_or-zeros : (n j : ℕ) → Path ℕ (get_or (replicate n 0) j 0) 0
get_or-zeros zero j = refl
get_or-zeros (suc n) zero = refl
get_or-zeros (suc n) (suc j) = get_or-zeros n j

defaults-IsReady :
    (c : Config) (s : Server)
    → c.query_type ≡ query_protocol_sqp
    → IsReady (set_defaults c s).state.metrics
unfolding set_defaults
defaults-IsReady c s sqp =
    rw sqp
      (record { capacity = refl; within = omega arith; zeros = λ j h. get_or-zeros max_metrics j })

start-IsReady :
    (host : Host) (c : Config) (s : Server)
    → c.query_type ≡ query_protocol_sqp
    → new_config_from_file host.files s.cfg_file ≡ ok c
    → host.make_dirs c.server_log_dir ≡ ok tt
    → (switch_query_protocol host.network c (set_defaults c (set_config c s))).1 ≡ ok tt
    → IsReady (start host s).0.state.metrics
unfolding start start_with
start-IsReady host c s sqp hc hd hq =
    rw (hc, hd)
      (rw
        (step-ok (switch_query_protocol host.network c (set_defaults c (set_config c s)))
          (λ u. listen host (start_watching host c u)) hq)
        (rw
          (listen-metrics host c
              (switch_query_protocol host.network c (set_defaults c (set_config c s))).0
            ∙ ap (λ st. st.metrics) (switch-state host.network c (set_defaults c (set_config c s))))
          (defaults-IsReady c (set_config c s) sqp)))

pub started-IsRunning :
    (host : Host) (c : Config) (s : Server)
    → IsPrepared s
    → c.query_type ≡ query_protocol_sqp
    → new_config_from_file host.files s.cfg_file ≡ ok c
    → host.make_dirs c.server_log_dir ≡ ok tt
    → (switch_query_protocol host.network c (set_defaults c (set_config c s))).1 ≡ ok tt
    → IsRunning (start host s).0
started-IsRunning host c s p sqp hc hd hq = record {
  serving = started_server-IsServing host c s p hc hd hq;
  ready = start-IsReady host c s sqp hc hd hq;
}
