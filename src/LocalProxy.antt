-- ===== src/LocalProxy.antt =====
-- game-server-hosting/server/internal/localproxy: the client of the machine-local proxy. This file
-- is event.go and the client's state (client.go); `Requests` has the calls over HTTP.
pub mod Decimal
pub mod Requests
pub mod Replies
pub mod Subscription
use unity_gaming_services_go.Prelude.{
  ℕ, List, [], ◌∷◌, Bool, true, false, Option, none, some, Outcome, ok, err, panic, ◌>>=◌, or_panic,
  Bytes, codes, bytes_eq, if◌then◌else◌,
}
use unity_gaming_services_go.Server.Settings.{GoError}
use Decimal.{ℤ}

abbrev pub EventType : Type 0
EventType = Bytes

abbrev pub allocate_event_type : EventType
allocate_event_type = codes "AllocateEventType"

abbrev pub deallocate_event_type : EventType
deallocate_event_type = codes "DeallocateEventType"

pub record BaseEvent : Type 0 where
  pub typ : EventType
  pub event_id : Bytes
  pub server_id : ℤ

-- The types that implement the interface `Event`.
pub data Event : Type 0 where
  base_event : BaseEvent → Event
  allocate_event : BaseEvent → Bytes → Event
  deallocate_event : BaseEvent → Bytes → Event

abbrev pub base_of : Event → BaseEvent
base_of (base_event b) = b
base_of (allocate_event b id) = b
base_of (deallocate_event b id) = b

-- `Type`
abbrev pub event_type : Event → EventType
event_type e = (base_of e).typ

-- What json.Unmarshal makes of a message, as a base event (nil for a JSON null) and as an event
-- with an allocation ID.
pub record EventDecoder : Type 0 where
  pub decode_base : Bytes → Outcome GoError (Option BaseEvent)
  pub decode_allocation : Bytes → Outcome GoError (BaseEvent × Bytes)

unfoldable pub unmarshal_event : EventDecoder → Bytes → Outcome GoError Event
unmarshal_event d message = do
  decoded ← d.decode_base message
  event ← or_panic decoded
  if bytes_eq event.typ allocate_event_type
      then (d.decode_allocation message >>= λ p. ok (allocate_event p.0 p.1))
      else if bytes_eq event.typ deallocate_event_type
      then (d.decode_allocation message >>= λ p. ok (deallocate_event p.0 p.1))
      else ok (base_event event)

-- The two methods of the server that are registered as callbacks.
pub data Callback : Type 0 where
  watch_allocation watch_deallocation : Callback

-- The websocket client's subscription is in `Subscription`.
pub record Client : Type 0 where
  pub host : Bytes
  pub server_id : ℤ
  pub callbacks : List (EventType × Callback)

unfoldable pub new_client : Bytes → ℤ → Client
new_client host server_id = record { host = host; server_id = server_id; callbacks = [] }

-- `c.callbacks[ev] = cb`: the front of the list is found first.
unfoldable pub register_callback : EventType → Callback → Client → Client
register_callback ev cb c = record c { callbacks = (ev, cb) ∷ c.callbacks }

unfoldable pub lookup_callback : EventType → List (EventType × Callback) → Option Callback
lookup_callback ev [] = none
lookup_callback ev ((k, cb) ∷ rest) = if bytes_eq k ev then some cb else lookup_callback ev rest
