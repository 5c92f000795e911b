-- ===== src/Server/Running/Parts.antt =====
-- What each part leaves as it is: the binding, the responder, the buffer and the metrics.
use unity_gaming_services_go.Prelude.{
  List, ℕ, [], Slice, ◌≡◌, refl, inl, inr, Bool, Bool-cases, true, false, Option, none, some,
  Outcome, ok, err, panic, Bytes, bytes_eq, bit_and, ◌==◌, if◌then◌else◌,
}
use unity_gaming_services_go.Server.Settings.{Config, GoError, new_config_from_file}
use unity_gaming_services_go.LocalProxy.{
  Event, base_event, allocate_event, deallocate_event, event_type, EventDecoder, unmarshal_event,
  Client, Callback, watch_allocation, watch_deallocation, lookup_callback,
}
use unity_gaming_services_go.Server.{Goroutine, Server, QueryResponder, push_error, set_config}
use unity_gaming_services_go.Server.Events.{
  run_callback, on_event, on_publish, run_watch_allocation, run_watch_deallocation, send_allocated,
  send_deallocated,
}
use unity_gaming_services_go.Server.Watcher.{
  WatchEvent, changed, failed, closed, finished, is_eof, reload, watch,
}

-- What the query loop serves from, the metrics, and what Stop looks at.
abbrev pub endpoint :
    Server → Option Bool × Option QueryResponder × ℕ × Slice ℕ × ℕ × List Goroutine × Bool
endpoint s = (
  s.query_bind, s.query_proto, s.query_read_buffer_size_bytes, s.state.metrics, s.wg, s.goroutines,
  s.done,
)

abbrev pub Keeps : Server → Server → Type 0
Keeps s t = endpoint t ≡ endpoint s

allocated-Keeps :
    (id : Bytes) (s : Server) (o : Option Bytes)
    → Keeps s (send_allocated id (record s { allocated_uuid = id }) o).0
allocated-Keeps id s none = refl
allocated-Keeps id s (some old) = refl

deallocated-Keeps :
    (id : Bytes) (s : Server) (o : Option Bytes)
    → Keeps s (send_deallocated id (record s { allocated_uuid = [] }) o).0
deallocated-Keeps id s none = refl
deallocated-Keeps id s (some old) = refl

callback-Keeps : (cb : Option Callback) (ev : Event) (s : Server) → Keeps s (run_callback cb ev s).0
unfolding run_callback run_watch_allocation run_watch_deallocation
callback-Keeps none ev s = refl
callback-Keeps (some watch_allocation) (base_event b) s = refl
callback-Keeps (some watch_allocation) (deallocate_event b id) s = refl
callback-Keeps (some watch_allocation) (allocate_event b id) s =
    allocated-Keeps id s s.chan_allocated
callback-Keeps (some watch_deallocation) (base_event b) s = refl
callback-Keeps (some watch_deallocation) (allocate_event b id) s = refl
callback-Keeps (some watch_deallocation) (deallocate_event b id) s =
    deallocated-Keeps id s s.chan_deallocated

publish-Keeps : (r : Outcome GoError Event) (c : Client) (s : Server) → Keeps s (on_event r c s).0
unfolding on_event push_error
publish-Keeps (ok ev) c s = callback-Keeps (lookup_callback (event_type ev) c.callbacks) ev s
publish-Keeps (err e) c s = refl
publish-Keeps panic c s = refl

-- Whatever the local proxy publishes.
pub on_publish-Keeps :
    (d : EventDecoder) (c : Client) (message : Bytes) (s : Server)
    → Keeps s (on_publish d c message s).0
unfolding on_publish
on_publish-Keeps d c message s = publish-Keeps (unmarshal_event d message) c s

failed-Keeps : (b : Bool) (e : GoError) (s : Server) → Keeps s (if b then s else push_error e s)
unfolding push_error
failed-Keeps true e s = refl
failed-Keeps false e s = refl

reload-Keeps : (r : Outcome GoError Config) (s : Server) → Keeps s (reload s r).0
unfolding set_config
reload-Keeps (ok c) s = refl
reload-Keeps (err e) s = failed-Keeps (is_eof e) _ s
reload-Keeps panic s = refl

-- Whatever happens to the configuration file.
pub watch-Keeps : (write : ℕ) (ev : WatchEvent) (s : Server) → Keeps s (watch write s ev).0
unfolding watch push_error
watch-Keeps write (failed e) s = refl
watch-Keeps write closed s = refl
watch-Keeps write finished s = refl
watch-Keeps write (changed name op files) s = elim (Bool-cases (bytes_eq name s.cfg_file)) [
  | inr other ↦ rw other refl
  | inl own ↦ elim (Bool-cases (bit_and op write == write)) [
    | inr e ↦ rw (own, e) refl
    | inl e ↦ rw (own, e) (reload-Keeps (new_config_from_file files s.cfg_file) s)
  ]
]
