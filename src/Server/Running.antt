-- ===== src/Server/Running.antt =====
-- A started server as its parts act on it, one step after the other: the user's methods, the
-- messages of the local proxy, the events of the file watcher and the rounds of the query loop.
pub mod Parts
pub mod Fates
pub mod Alive
pub mod Started
pub mod Stopped
pub mod Interleaved
use unity_gaming_services_go.Prelude.{ℕ, List, [], ◌∷◌, none, Outcome, ok, err, panic, Bytes}
use unity_gaming_services_go.Server.Settings.{GoError}
use unity_gaming_services_go.LocalProxy.{EventDecoder, Client}
use unity_gaming_services_go.Server.{Server}
use unity_gaming_services_go.Server.Players.{
  player_joined, player_left, set_current_players, set_max_players, set_server_name, set_game_type,
  set_game_map,
}
use unity_gaming_services_go.Server.Channels.{
  receive_allocated, receive_deallocated, receive_error, receive_configuration,
}
use unity_gaming_services_go.Server.Metrics.{set_metric}
use unity_gaming_services_go.Server.Events.{
  Delivery, handled, ignored, waiting, crashed, on_publish,
}
use unity_gaming_services_go.Server.Watcher.{WatchEvent, Watching, watches, ended, broken, watch}
use unity_gaming_services_go.Server.Queries.{
  Reading, Next, again, stopped, crashed as crash, Turn, round,
}

pub data Action : Type 0 where
  joined left : Action
  sets_players sets_max_players : ℕ → Action
  sets_name sets_game_type sets_game_map : Bytes → Action
  sets_metric : ℕ → ℕ → Action
  published : EventDecoder → Client → Bytes → Action
  watched : ℕ → WatchEvent → Action
  queried : Bytes → Reading → Action
  takes_allocated takes_deallocated takes_error takes_configuration : Action

-- Whether the process goes on or has panicked.
pub data Fate : Type 0 where
  goes dies : Fate

abbrev pub after_call : {A : Type 0} → Server × Outcome GoError A → Server × Fate
after_call (s, ok a) = (s, goes)
after_call (s, err e) = (s, goes)
after_call (s, panic) = (s, dies)

abbrev pub after_delivery : Server × Delivery → Server × Fate
after_delivery (s, handled) = (s, goes)
after_delivery (s, ignored) = (s, goes)
after_delivery (s, waiting) = (s, goes)
after_delivery (s, crashed) = (s, dies)

abbrev pub after_event : Server × Watching → Server × Fate
after_event (s, watches) = (s, goes)
after_event (s, ended) = (s, goes)
after_event (s, broken) = (s, dies)

abbrev pub after_round : Server → Next → Server × Fate
after_round s again = (s, goes)
after_round s stopped = (s, goes)
after_round s crash = (s, dies)

unfoldable pub act : Action → Server → Server × Fate
act joined s = ((player_joined s).0, goes)
act left s = ((player_left s).0, goes)
act (sets_players n) s = (set_current_players n s, goes)
act (sets_max_players n) s = (set_max_players n s, goes)
act (sets_name name) s = (set_server_name name s, goes)
act (sets_game_type t) s = (set_game_type t s, goes)
act (sets_game_map m) s = (set_game_map m s, goes)
act (sets_metric index value) s = after_call (set_metric s index value)
act (published d c message) s = after_delivery (on_publish d c message s)
act (watched write ev) s = after_event (watch write s ev)
act (queried os reading) s = let t = round os s reading in after_round t.server t.next
act takes_allocated s = ((receive_allocated s).0, goes)
act takes_deallocated s = ((receive_deallocated s).0, goes)
act takes_error s = ((receive_error s).0, goes)
act takes_configuration s = ((receive_configuration s).0, goes)

abbrev pub act_on : Server × Fate → (Server → Server × Fate) → Server × Fate
act_on (s, goes) k = k s
act_on (s, dies) k = (s, dies)

unfoldable pub run : List Action → Server → Server × Fate
run [] s = (s, goes)
run (a ∷ actions) s = act_on (act a s) (λ t. run actions t)
