-- ===== src/Server/Events.antt =====
-- event_watcher.go and `OnPublish` of internal/localproxy/client.go: how the events of the local
-- proxy reach the server.
pub mod Allocation
use unity_gaming_services_go.Prelude.{
  ℕ, ◌+◌, List, [], ◌∷◌, Bool, true, false, Option, none, some, Outcome, ok, err, panic, Bytes,
  codes, bytes_eq, if◌then◌else◌,
}
use unity_gaming_services_go.Server.Settings.{GoError, wrap}
use unity_gaming_services_go.LocalProxy.Decimal.{ℤ}
use unity_gaming_services_go.LocalProxy.{
  Event, base_event, allocate_event, deallocate_event, event_type, EventDecoder, unmarshal_event,
  Callback, watch_allocation, watch_deallocation, Client, new_client, register_callback,
  lookup_callback, allocate_event_type, deallocate_event_type,
}
use unity_gaming_services_go.Server.{
  Server, ServerType, allocation, reservation, Goroutine, event_listener, push_error, config,
}

-- What became of a published message. A callback that sends to a full channel waits for a reader.
pub data Delivery : Type 0 where
  handled ignored waiting crashed : Delivery

abbrev pub send_allocated : Bytes → Server → Option Bytes → Server × Delivery
send_allocated id s none = (record s { chan_allocated = some id }, handled)
send_allocated id s (some old) = (s, waiting)

abbrev pub send_deallocated : Bytes → Server → Option Bytes → Server × Delivery
send_deallocated id s none = (record s { chan_deallocated = some id }, handled)
send_deallocated id s (some old) = (s, waiting)

-- `watchAllocation`. The assertion to *AllocateEvent fails on other events.
unfoldable pub run_watch_allocation : Event → Server → Server × Delivery
run_watch_allocation (allocate_event b id) s =
    send_allocated id (record s { allocated_uuid = id }) s.chan_allocated
run_watch_allocation _ s = (s, ignored)

-- `watchDeallocation`
unfoldable pub run_watch_deallocation : Event → Server → Server × Delivery
run_watch_deallocation (deallocate_event b id) s =
    send_deallocated id (record s { allocated_uuid = [] }) s.chan_deallocated
run_watch_deallocation _ s = (s, ignored)

unfoldable pub run_callback : Option Callback → Event → Server → Server × Delivery
unfolding run_watch_allocation run_watch_deallocation
run_callback none ev s = (s, ignored)
run_callback (some watch_allocation) ev s = run_watch_allocation ev s
run_callback (some watch_deallocation) ev s = run_watch_deallocation ev s

unfoldable pub on_event : Outcome GoError Event → Client → Server → Server × Delivery
unfolding run_callback
on_event (ok ev) c s = run_callback (lookup_callback (event_type ev) c.callbacks) ev s
on_event (err e) c s = (push_error e s, ignored)
on_event panic c s = (s, crashed)

-- `OnPublish`. The client's error channel is the server's.
unfoldable pub on_publish : EventDecoder → Client → Bytes → Server → Server × Delivery
unfolding on_event
on_publish d c message s = on_event (unmarshal_event d message) c s

-- The client that `listenForEvents` makes: callbacks only for a server that handles allocations.
unfoldable pub make_client : ServerType → Bytes → ℤ → Client
make_client allocation url id =
    register_callback deallocate_event_type watch_deallocation
      (register_callback allocate_event_type watch_allocation (new_client url id))
make_client reservation url id = new_client url id

-- What `listenForEvents` needs: json.Number's Int64, and the client's `Start`.
pub record Proxy : Type 0 where
  pub int64_of : Bytes → Outcome GoError ℤ
  pub start : Client → Outcome GoError (Unit {0})

-- The goroutine up to the message on `eventWatcherReady`. The two returns on an error come before
-- the deferred `wg.Done` is set up.
abbrev pub started :
    Client → Server → Outcome GoError (Unit {0}) → Server × Outcome GoError (Unit {0})
started c s (ok u) =
    (record s { local_proxy_client = some c; goroutines = event_listener ∷ s.goroutines }, ok tt)
started c s (err e) = (record s { local_proxy_client = some c }, err e)
started c s panic = (record s { local_proxy_client = some c }, panic)

abbrev pub with_id : Proxy → Server → Outcome GoError ℤ → Server × Outcome GoError (Unit {0})
with_id p s (ok id) =
    let c = make_client s.server_type s.current_config.local_proxy_url id in started c s (p.start c)
with_id p s (err e) = (s, err (wrap (codes "error parsing server ID") e))
with_id p s panic = (s, panic)

unfoldable pub listen_for_events : Proxy → Server → Server × Outcome GoError (Unit {0})
listen_for_events p s = with_id p (record s { wg = s.wg + 1 }) (p.int64_of (config s).server_id)
