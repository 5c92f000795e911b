-- ===== src/Server.antt =====
-- game-server-hosting/server: the game server (server.go, option.go, error.go). A string is its
-- bytes, a duration its nanoseconds. A channel of capacity 1 is what waits in it.
pub mod Binding
pub mod Settings
pub mod Channels
pub mod Players
pub mod Metrics
pub mod Events
pub mod Actions
pub mod Queries
pub mod Watcher
pub mod Lifecycle
pub mod Running
pub mod Texts
use unity_gaming_services_go.Prelude.{
  ℕ, ◌+◌, ◌++◌, List, [], ◌∷◌, Bool, true, false, Option, none, some, Outcome, ok, err, panic,
  ◌>>=◌, Bytes, codes, nil_slice,
}
use unity_gaming_services_go.Proto.Challenge.{QueryError, QueryBase}
use unity_gaming_services_go.Proto.Wire.{QueryState}
use unity_gaming_services_go.LocalProxy.{Client}
use Settings.{Config, GoError, external, wrap, empty_config}

pub data ServerType : Type 0 where
  allocation reservation : ServerType

-- A responder with its `QueryBase`.
pub data QueryResponder : Type 0 where
  a2s_responder sqp_responder : QueryBase → QueryResponder

-- The goroutines of a server that take part in its wait group.
pub data Goroutine : Type 0 where
  config_watcher event_listener query_handler : Goroutine

-- The mutexes are left out: each method is one atomic step. `query_bind` is whether the binding's
-- `done` channel is closed, `done` whether the server's is. `wg` counts the Adds less the Dones, and
-- `goroutines` are those that have done their Add and will do a Done when they are told to stop.
pub record Server : Type 0 where
  pub allocated_uuid : Bytes
  pub cfg_file : Bytes
  pub query_bind : Option Bool
  pub query_proto : Option QueryResponder
  pub server_type : ServerType
  pub state : QueryState
  pub chan_allocated : Option Bytes
  pub chan_configuration_changed : Option Config
  pub chan_deallocated : Option Bytes
  pub chan_error : Option GoError
  pub current_config : Config
  pub query_write_buffer_size_bytes : ℕ
  pub query_write_deadline_duration : ℕ
  pub query_read_buffer_size_bytes : ℕ
  pub query_read_deadline_duration : ℕ
  pub local_proxy_client : Option Client
  pub done : Bool
  pub wg : ℕ
  pub goroutines : List Goroutine

abbrev pub default_write_buffer_size_bytes : ℕ
default_write_buffer_size_bytes = 1024

abbrev pub default_write_deadline_duration : ℕ
default_write_deadline_duration = 1000000000

abbrev pub default_read_deadline_duration : ℕ
default_read_deadline_duration = 3000000000

abbrev pub default_read_buffer_size_bytes : ℕ
default_read_buffer_size_bytes = 1024

abbrev pub empty_state : QueryState
empty_state = record {
  current_players = 0;
  max_players = 0;
  server_name = [];
  game_type = [];
  game_map = [];
  port = 0;
  metrics = nil_slice;
}

abbrev pub Opt : Type 0
Opt = Server → Server

abbrev pub with_query_write_buffer : ℕ → Opt
with_query_write_buffer size_bytes s = record s { query_write_buffer_size_bytes = size_bytes }

abbrev pub with_query_read_buffer : ℕ → Opt
with_query_read_buffer size_bytes s = record s { query_read_buffer_size_bytes = size_bytes }

abbrev pub with_query_write_deadline_duration : ℕ → Opt
with_query_write_deadline_duration duration s = record s {
  query_write_deadline_duration = duration;
}

abbrev pub with_query_read_deadline_duration : ℕ → Opt
with_query_read_deadline_duration duration s = record s { query_read_deadline_duration = duration }

abbrev pub with_config_path : Bytes → Opt
with_config_path path s = record s { cfg_file = path }

-- The server before the options: `dir` is the user's home directory, and filepath.Join is a
-- parameter.
abbrev pub default_server : (Bytes → Bytes → Bytes) → Bytes → ServerType → Server
default_server join dir t = record {
  allocated_uuid = [];
  cfg_file = join dir (codes "server.json");
  query_bind = none;
  query_proto = none;
  server_type = t;
  state = empty_state;
  chan_allocated = none;
  chan_configuration_changed = none;
  chan_deallocated = none;
  chan_error = none;
  current_config = empty_config;
  query_write_buffer_size_bytes = default_write_buffer_size_bytes;
  query_write_deadline_duration = default_write_deadline_duration;
  query_read_buffer_size_bytes = default_read_buffer_size_bytes;
  query_read_deadline_duration = default_read_deadline_duration;
  local_proxy_client = none;
  done = false;
  wg = 0;
  goroutines = [];
}

pub apply_options : List Opt → Server → Server
apply_options [] s = s
apply_options (opt ∷ opts) s = apply_options opts (opt s)

unfoldable pub new :
    (Bytes → Bytes → Bytes) → Outcome GoError Bytes → ServerType → List Opt → Outcome GoError Server
unfolding apply_options
new join home t opts = elim home [
  | ok dir ↦ ok (apply_options opts (default_server join dir t))
  | err e ↦ err (wrap (codes "error getting user home directory") e)
  | panic ↦ panic
]

-- A select with a default: a full channel drops what is offered.
abbrev pub offer {ℓ} : {A : Type ℓ} → Option A → A → Option A
offer none v = some v
offer (some old) v = some old

-- error.go
unfoldable pub push_error : GoError → Server → Server
push_error e s = record s { chan_error = offer s.chan_error e }

unfoldable pub set_config : Config → Server → Server
set_config c s = record s {
  current_config = c;
  chan_configuration_changed = offer s.chan_configuration_changed c;
}

-- `Config`
abbrev pub config : Server → Config
config s = s.current_config
