-- ===== src/Server/Lifecycle/Shutdown.antt =====
-- What `Start` leaves for `Stop` to end.
use unity_gaming_services_go.Prelude.{
  ℕ, ◌+◌, ◌≡◌, refl, Bool, Bool-cases, inl, inr, false, none, some, Outcome, ok, err, panic, codes,
  length, bytes_eq, arith,
}
use unity_gaming_services_go.Proto.Challenge.{no_challenges}
use unity_gaming_services_go.Server.Settings.{
  Config, new_config_from_file, GoError, wrapped, query_protocol_a2s, query_protocol_sqp,
}
use unity_gaming_services_go.Server.{Server, a2s_responder, sqp_responder, set_config}
use unity_gaming_services_go.Server.Players.{set_server_name, set_game_map}
use unity_gaming_services_go.LocalProxy.Decimal.{ℤ}
use unity_gaming_services_go.LocalProxy.{Client}
use unity_gaming_services_go.Server.Events.{Proxy, make_client, started, with_id, listen_for_events}
use unity_gaming_services_go.Server.Queries.{
  Network, with_binding, restart_query_endpoint, switch_query_protocol,
}
use unity_gaming_services_go.Server.Lifecycle.{
  Host, Started, step, set_defaults, start_watching, listen, start_with, start,
}

-- A server that has not been stopped, with `extra` Adds that no goroutine will undo.
pub record IsRunning (extra : ℕ) (s : Server) : Type 0 where
  pub counted : s.wg ≡ length s.goroutines + extra
  pub not_done : s.done ≡ false
  pub quiet : s.chan_deallocated ≡ none

with_binding-IsRunning :
    (k : ℕ) (s : Server) (r : Outcome GoError Bool)
    → IsRunning k s
    → IsRunning k (with_binding s r).0
with_binding-IsRunning k s (ok b) h = record {
  counted = omega (arith, h.counted);
  not_done = h.not_done;
  quiet = h.quiet;
}
with_binding-IsRunning k s (err e) h = record {
  counted = h.counted;
  not_done = h.not_done;
  quiet = h.quiet;
}
with_binding-IsRunning k s panic h = record {
  counted = h.counted;
  not_done = h.not_done;
  quiet = h.quiet;
}

restart-IsRunning :
    (k : ℕ) (net : Network) (c : Config) (s : Server)
    → IsRunning k s
    → IsRunning k (restart_query_endpoint net c s).0
unfolding restart_query_endpoint
restart-IsRunning k net c s h = with_binding-IsRunning k s _ h

switch-IsRunning :
    (k : ℕ) (net : Network) (c : Config) (s : Server)
    → IsRunning k s
    → IsRunning k (switch_query_protocol net c s).0
unfolding switch_query_protocol
switch-IsRunning k net c s h = elim (Bool-cases (bytes_eq c.query_type query_protocol_a2s)) [
  | inl a2s ↦ rw a2s (
      restart-IsRunning k net c (record s { query_proto = some (a2s_responder no_challenges) })
        (record { counted = h.counted; not_done = h.not_done; quiet = h.quiet }))
  | inr other ↦ elim (Bool-cases (bytes_eq c.query_type query_protocol_sqp)) [
    | inl sqp ↦
        rw (other, sqp)
          (restart-IsRunning k net c (record s { query_proto = some (sqp_responder no_challenges) })
            (record { counted = h.counted; not_done = h.not_done; quiet = h.quiet }))
    | inr neither ↦ rw (other, neither) h
  ]
]

defaults-IsRunning :
    (k : ℕ) (c : Config) (s : Server)
    → IsRunning k s
    → IsRunning k (set_defaults c (set_config c s))
unfolding set_defaults set_config set_server_name set_game_map
defaults-IsRunning k c s h = elim (Bool-cases (bytes_eq c.query_type query_protocol_sqp)) [
  | inl sqp ↦ rw sqp (record { counted = h.counted; not_done = h.not_done; quiet = h.quiet })
  | inr a2s ↦ rw a2s (record { counted = h.counted; not_done = h.not_done; quiet = h.quiet })
]

watching-IsRunning :
    (k : ℕ) (host : Host) (c : Config) (s : Server)
    → IsRunning k s
    → IsRunning k (start_watching host c s)
unfolding start_watching
watching-IsRunning k host c s h = record {
  counted = omega (arith, h.counted);
  not_done = h.not_done;
  quiet = h.quiet;
}

-- The Add of the event listener is left over exactly when it reports an error.
abbrev pub leftover : {A : Type 0} → Outcome GoError A → ℕ
leftover (ok u) = 0
leftover (err e) = 1
leftover panic = 1

report : {A : Type 0} → Outcome GoError A → Outcome GoError A
report r = wrapped (codes "error configuring event watcher") r

started-IsRunning :
    (c : Client) (s : Server) (r : Outcome GoError (Unit {0}))
    → s.wg ≡ length s.goroutines + 1
    → s.done ≡ false
    → s.chan_deallocated ≡ none
    → let p = started c s r in IsRunning (leftover (report p.1)) p.0
unfolding report
started-IsRunning c s (ok u) hw hd hq = record {
  counted = omega (arith, hw);
  not_done = hd;
  quiet = hq;
}
started-IsRunning c s (err e) hw hd hq = record { counted = hw; not_done = hd; quiet = hq }
started-IsRunning c s panic hw hd hq = record { counted = hw; not_done = hd; quiet = hq }

identified-IsRunning :
    (p : Proxy) (s : Server) (r : Outcome GoError ℤ)
    → s.wg ≡ length s.goroutines + 1
    → s.done ≡ false
    → s.chan_deallocated ≡ none
    → let t = with_id p s r in IsRunning (leftover (report t.1)) t.0
unfolding report
identified-IsRunning p s (ok id) hw hd hq =
    let c = make_client s.server_type s.current_config.local_proxy_url id in
    started-IsRunning c s (p.start c) hw hd hq
identified-IsRunning p s (err e) hw hd hq = record { counted = hw; not_done = hd; quiet = hq }
identified-IsRunning p s panic hw hd hq = record { counted = hw; not_done = hd; quiet = hq }

listen-IsRunning :
    (host : Host) (s : Server)
    → IsRunning 0 s
    → let p = listen host s in IsRunning (leftover p.1) p.0
unfolding listen listen_for_events report
listen-IsRunning host s h =
    identified-IsRunning host.proxy (record s { wg = s.wg + 1 })
      (host.proxy.int64_of s.current_config.server_id) (omega (arith, h.counted)) h.not_done h.quiet

pub step-ok : (p : Started) (k : Server → Started) → p.1 ≡ ok tt → step p k ≡ k p.0
step-ok (s, ok u) k h = refl
step-ok (s, err e) k h = absurd (cc)
step-ok (s, panic) k h = absurd (cc)

-- What Start leaves for Stop.
pub started_server-IsRunning :
    (host : Host) (c : Config) (s : Server)
    → IsRunning 0 s
    → new_config_from_file host.files s.cfg_file ≡ ok c
    → host.make_dirs c.server_log_dir ≡ ok tt
    → (switch_query_protocol host.network c (set_defaults c (set_config c s))).1 ≡ ok tt
    → IsRunning (leftover (start host s).1) (start host s).0
unfolding start start_with
started_server-IsRunning host c s h hc hd hq =
    rw (hc, hd)
      (rw
        (step-ok (switch_query_protocol host.network c (set_defaults c (set_config c s)))
          (λ u. listen host (start_watching host c u)) hq)
        (listen-IsRunning host _ (
          watching-IsRunning 0 host c _
            (switch-IsRunning 0 host.network c _ (defaults-IsRunning 0 c s h)))))
