-- ===== src/Server/Lifecycle/Serving.antt =====
-- What `Start` (server.go) leaves for the query loop.
use unity_gaming_services_go.Prelude.{
  ◌+◌, ◌≤◌, ◌≡◌, ◌≢◌, List, Bool, Bool-cases, inl, inr, none, some, Outcome, ok, err, panic, Bytes,
  bytes_eq, arith,
}
use unity_gaming_services_go.Proto.Challenge.{no_challenges}
use unity_gaming_services_go.Sqp.Sizes.{IsWindow}
use unity_gaming_services_go.LocalProxy.{Client}
use unity_gaming_services_go.LocalProxy.Decimal.{ℤ}
use unity_gaming_services_go.Server.Settings.{
  Config, new_config_from_file, GoError, query_protocol_a2s, query_protocol_sqp,
}
use unity_gaming_services_go.Server.{Server, a2s_responder, sqp_responder, set_config}
use unity_gaming_services_go.Server.Players.{set_server_name, set_game_map}
use unity_gaming_services_go.Server.Events.{Proxy, make_client, started, with_id, listen_for_events}
use unity_gaming_services_go.Server.Queries.{
  Network, with_binding, restart_query_endpoint, switch_query_protocol, Reading, handle_query,
}
use unity_gaming_services_go.Server.Queries.Service.{IsServing, IsFine, handle_query-IsFine}
use unity_gaming_services_go.Server.Lifecycle.{
  Host, set_defaults, start_watching, listen, start_with, start,
}
use unity_gaming_services_go.Server.Lifecycle.Shutdown.{step-ok}

-- The buffer and the metrics that a server needs before its endpoint is opened.
abbrev pub IsPrepared : Server → Type 0
IsPrepared s = (5 ≤ s.query_read_buffer_size_bytes) × IsWindow s.state.metrics

defaults-IsPrepared :
    (c : Config) (s : Server) → IsPrepared s → IsPrepared (set_defaults c (set_config c s))
unfolding set_defaults set_config set_server_name set_game_map
defaults-IsPrepared c s (roomy, window) =
    elim (Bool-cases (bytes_eq c.query_type query_protocol_sqp)) [
      | inl sqp ↦ rw sqp (roomy, omega arith)
      | inr a2s ↦ rw a2s (roomy, window)
    ]

binding-IsServing :
    (s : Server) (r : Outcome GoError Bool)
    → s.query_proto ≢ none
    → IsPrepared s
    → (with_binding s r).1 ≡ ok tt
    → IsServing (with_binding s r).0
binding-IsServing s (ok b) p (roomy, window) h = record {
  bound = λ e. cc;
  responds = p;
  roomy = roomy;
  window = window;
}
binding-IsServing s (err e) p q h = absurd (cc)
binding-IsServing s panic p q h = absurd (cc)

restart-IsServing :
    (net : Network) (c : Config) (s : Server)
    → s.query_proto ≢ none
    → IsPrepared s
    → (restart_query_endpoint net c s).1 ≡ ok tt
    → IsServing (restart_query_endpoint net c s).0
unfolding restart_query_endpoint
restart-IsServing net c s p q h = binding-IsServing s _ p q h

switch-IsServing :
    (net : Network) (c : Config) (s : Server)
    → IsPrepared s
    → (switch_query_protocol net c s).1 ≡ ok tt
    → IsServing (switch_query_protocol net c s).0
unfolding switch_query_protocol
switch-IsServing net c s q h = elim (Bool-cases (bytes_eq c.query_type query_protocol_a2s)) [
  | inl a2s ↦ rw a2s (
      restart-IsServing net c (record s { query_proto = some (a2s_responder no_challenges) })
        (λ e. cc) q (rw a2s at h))
  | inr other ↦ elim (Bool-cases (bytes_eq c.query_type query_protocol_sqp)) [
    | inl sqp ↦
        rw (other, sqp)
          (restart-IsServing net c (record s { query_proto = some (sqp_responder no_challenges) })
            (λ e. cc) q (rw (other, sqp) at h))
    | inr neither ↦ let h' = rw (other, neither) at h in absurd (cc)
  ]
]

started-IsServing :
    (c : Client) (s : Server) (r : Outcome GoError (Unit {0}))
    → IsServing s
    → IsServing (started c s r).0
started-IsServing c s (ok u) h = record {
  bound = h.bound;
  responds = h.responds;
  roomy = h.roomy;
  window = h.window;
}
started-IsServing c s (err e) h = record {
  bound = h.bound;
  responds = h.responds;
  roomy = h.roomy;
  window = h.window;
}
started-IsServing c s panic h = record {
  bound = h.bound;
  responds = h.responds;
  roomy = h.roomy;
  window = h.window;
}

identified-IsServing :
    (p : Proxy) (s : Server) (r : Outcome GoError ℤ) → IsServing s → IsServing (with_id p s r).0
identified-IsServing p s (ok id) h =
    let c = make_client s.server_type s.current_config.local_proxy_url id in
    started-IsServing c s (p.start c) h
identified-IsServing p s (err e) h = h
identified-IsServing p s panic h = h

listen-IsServing :
    (host : Host) (c : Config) (s : Server)
    → IsServing s
    → IsServing (listen host (start_watching host c s)).0
unfolding listen listen_for_events start_watching
listen-IsServing host c s h =
    let u = start_watching host c s in
    identified-IsServing host.proxy (record u { wg = u.wg + 1 })
      (host.proxy.int64_of u.current_config.server_id)
      (record { bound = h.bound; responds = h.responds; roomy = h.roomy; window = h.window })

pub started_server-IsServing :
    (host : Host) (c : Config) (s : Server)
    → IsPrepared s
    → new_config_from_file host.files s.cfg_file ≡ ok c
    → host.make_dirs c.server_log_dir ≡ ok tt
    → (switch_query_protocol host.network c (set_defaults c (set_config c s))).1 ≡ ok tt
    → IsServing (start host s).0
unfolding start start_with
started_server-IsServing host c s p hc hd hq =
    rw (hc, hd)
      (rw
        (step-ok (switch_query_protocol host.network c (set_defaults c (set_config c s)))
          (λ u. listen host (start_watching host c u)) hq)
        (listen-IsServing host c _
          (switch-IsServing host.network c _ (defaults-IsPrepared c s p) hq)))

-- On a server with a read buffer of 5 bytes or more and metrics within their array, whose
-- configuration loads, log directory is made and query endpoint opens: whether or not Start then
-- succeeds in listening for events, the server it leaves has what the query loop needs, and the
-- loop runs on any readings without a crash.
pub start-IsServing :
    (host : Host) (c : Config) (s : Server) (os : Bytes) (readings : List Reading)
    → IsPrepared s
    → new_config_from_file host.files s.cfg_file ≡ ok c
    → host.make_dirs c.server_log_dir ≡ ok tt
    → (switch_query_protocol host.network c (set_defaults c (set_config c s))).1 ≡ ok tt
    → IsServing (start host s).0 × IsFine (handle_query os readings (start host s).0)
start-IsServing host c s os readings p hc hd hq =
    let served = started_server-IsServing host c s p hc hd hq in
    (served, handle_query-IsFine os readings _ served)
