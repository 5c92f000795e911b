-- ===== src/Server/Running/Fates.antt =====
-- What does not panic: messages and configuration files that decode.
use unity_gaming_services_go.Prelude.{
  ℕ, ◌≡◌, ◌≢◌, refl, inl, inr, [], Bool-cases, Option, none, some, Outcome, ok, err, panic, Bytes,
  bytes_eq, bit_and, ◌==◌,
}
use unity_gaming_services_go.Server.Settings.{Config, GoError, new_config_from_file}
use unity_gaming_services_go.LocalProxy.{
  Event, unmarshal_event, Client, Callback, watch_allocation, watch_deallocation, base_event,
  allocate_event, deallocate_event, lookup_callback, event_type,
}
use unity_gaming_services_go.Server.{Server}
use unity_gaming_services_go.Server.Events.{
  Delivery, handled, ignored, waiting, crashed, on_event, run_callback, send_allocated,
  send_deallocated, run_watch_allocation, run_watch_deallocation,
}
use unity_gaming_services_go.Server.Watcher.{
  WatchEvent, changed, failed, closed, finished, Watching, watches, ended, broken, watch,
}
use unity_gaming_services_go.Server.Watcher.{reload}
use unity_gaming_services_go.Server.Running.{
  Action, published, watched, goes, after_delivery, after_event,
}

-- A message whose decoding panics, and a configuration file whose loading panics, end the process.
abbrev pub Decodes : Action → Type 0
Decodes (published d c message) = unmarshal_event d message ≢ panic
Decodes (watched write (changed name op files)) =
    (path : Bytes) → new_config_from_file files path ≢ panic
Decodes _ = Unit

callback-goes :
    (cb : Option Callback) (ev : Event) (s : Server)
    → (after_delivery (run_callback cb ev s)).1 ≡ goes
unfolding run_callback run_watch_allocation run_watch_deallocation
callback-goes none ev s = refl
callback-goes (some watch_allocation) (base_event b) s = refl
callback-goes (some watch_allocation) (deallocate_event b id) s = refl
callback-goes (some watch_allocation) (allocate_event b id) s = sent_allocated s.chan_allocated
  where
    sent_allocated :
        (o : Option Bytes)
        → (after_delivery (send_allocated id (record s { allocated_uuid = id }) o)).1 ≡ goes
    sent_allocated none = refl
    sent_allocated (some old) = refl
callback-goes (some watch_deallocation) (base_event b) s = refl
callback-goes (some watch_deallocation) (allocate_event b id) s = refl
callback-goes (some watch_deallocation) (deallocate_event b id) s =
    sent_deallocated s.chan_deallocated
  where
    sent_deallocated :
        (o : Option Bytes)
        → (after_delivery (send_deallocated id (record s { allocated_uuid = [] }) o)).1 ≡ goes
    sent_deallocated none = refl
    sent_deallocated (some old) = refl

pub event-goes :
    (r : Outcome GoError Event) (c : Client) (s : Server)
    → r ≢ panic
    → (after_delivery (on_event r c s)).1 ≡ goes
unfolding on_event
event-goes (ok ev) c s k = callback-goes (lookup_callback (event_type ev) c.callbacks) ev s
event-goes (err e) c s k = refl
event-goes panic c s k = absurd (k refl)

pub delivery-server : (p : Server × Delivery) → (after_delivery p).0 ≡ p.0
delivery-server (s, handled) = refl
delivery-server (s, ignored) = refl
delivery-server (s, waiting) = refl
delivery-server (s, crashed) = refl

pub watching-server : (p : Server × Watching) → (after_event p).0 ≡ p.0
watching-server (s, watches) = refl
watching-server (s, ended) = refl
watching-server (s, broken) = refl

reload-goes :
    (r : Outcome GoError Config) (s : Server) → r ≢ panic → (after_event (reload s r)).1 ≡ goes
reload-goes (ok c) s k = refl
reload-goes (err e) s k = refl
reload-goes panic s k = absurd (k refl)

pub watch-goes :
    (write : ℕ) (ev : WatchEvent) (s : Server)
    → Decodes (watched write ev)
    → (after_event (watch write s ev)).1 ≡ goes
unfolding watch
watch-goes write (failed e) s k = refl
watch-goes write closed s k = refl
watch-goes write finished s k = refl
watch-goes write (changed name op files) s k = elim (Bool-cases (bytes_eq name s.cfg_file)) [
  | inr other ↦ rw other refl
  | inl own ↦ elim (Bool-cases (bit_and op write == write)) [
    | inr e ↦ rw (own, e) refl
    | inl e ↦ rw (own, e) (reload-goes (new_config_from_file files s.cfg_file) s (k s.cfg_file))
  ]
]
