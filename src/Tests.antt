-- ===== src/Tests.antt =====
-- Sample data for the runs in the modules below: a client, a server and its surroundings.
mod Bindings
mod Challenges
mod Clients
mod Responders
mod Servers
mod Subscriptions
mod Joins
mod Loops
mod Methods
mod Mocks
mod Runs
mod Proxies
mod Approvals
use unity_gaming_services_go.Prelude.{
  ℕ, zero, suc, ◌++◌, List, [], ◌∷◌, false, some, Outcome, ok, err, Bytes, codes, replicate, drop,
  ◌>>=◌,
}
use unity_gaming_services_go.Proto.Challenge.{
  QueryBase, Readings, no_challenges, challenge_entry, ChallengeEntry,
}
use unity_gaming_services_go.Proto.Wire.{QueryState}
use unity_gaming_services_go.Server.Settings.{
  Config, ConfigFiles, GoError, external, empty_config, query_protocol_sqp,
}
use unity_gaming_services_go.LocalProxy.Decimal.{ℤ, pos}
use unity_gaming_services_go.LocalProxy.{
  BaseEvent, EventDecoder, Client, new_client, allocate_event_type, deallocate_event_type,
}
use unity_gaming_services_go.LocalProxy.Requests.{Http}
use unity_gaming_services_go.Server.{Server, allocation, sqp_responder, default_server}
use unity_gaming_services_go.Server.Events.{Proxy}
use unity_gaming_services_go.Server.Queries.{Network}
use unity_gaming_services_go.Server.Lifecycle.{Host}

abbrev pub client : Bytes
client = codes "10.0.0.7:9000"

abbrev pub readings : Readings
readings = record { since = 5; purged = 6; epoch = 7; random = some (1, 2, 3, 4); stored = 8 }

abbrev pub entry : ChallengeEntry
entry = record { value = 16909060; expiry_utc = 90 }

-- A base that holds `entry` for every client.
abbrev pub held_base : QueryBase
held_base = record {
  challenges = λ k. some (challenge_entry entry);
  challenges_last_purged_utc = 4;
  purges = [];
}

abbrev pub state : QueryState
state = record {
  current_players = 3;
  max_players = 16;
  server_name = codes "srv";
  game_type = codes "tdm";
  game_map = codes "dm";
  port = 7777;
  metrics = record { array = 7 ∷ replicate 9 0; len = 1 };
}

abbrev pub config : Config
config = record empty_config { query_type = query_protocol_sqp; server_id = codes "7" }

abbrev pub files : ConfigFiles
files = record {
  open_file = λ path. ok path;
  decode_config = λ f. ok (some config);
  seek = λ f. ok tt;
  decode_extra = λ f. ok (λ k. some k);
}

abbrev pub server : Server
server = record (default_server (λ dir name. dir ++ name) (codes "/home/") allocation) {
  current_config = config;
}

abbrev pub proxy_client : Client
proxy_client = record { host = codes "http://localhost:8086"; server_id = pos 7; callbacks = [] }

abbrev pub serving : Server
serving = record server {
  state = state;
  query_bind = some false;
  query_proto = some (sqp_responder no_challenges);
  local_proxy_client = some proxy_client;
  allocated_uuid = codes "a1";
}

abbrev pub network : Network
network = record {
  resolve = λ a. ok tt;
  listen = λ a. ok tt;
  set_read_buffer = λ n. ok tt;
  set_write_buffer = λ n. ok tt;
}

abbrev pub host : Host
host = record {
  files = files;
  make_dirs = λ d. ok tt;
  network = network;
  proxy = record { int64_of = λ t. ok (pos 7); start = λ c. err (external (codes "refused")) };
  int64_value = λ t. 7777;
}

abbrev pub http : Http
http = record {
  new_request = λ m u. ok tt;
  new_uuid = ok (codes "u1");
  round_trip = λ r. ok (record { status_code = 204; body = ok [] });
  encode_patch = λ p. ok (codes "{}");
  encode_hold = λ h. ok (codes "{}");
  encode_reserve = λ r. ok (codes "{}");
  decode_hold = λ b. err (external b);
  decode_reserve = λ b. err (external b);
  error_text = λ e. codes "error";
}

-- A message of these samples is the event's kind, 0 for an allocation and 1 for a deallocation, and
-- the allocation's ID behind it.
abbrev event_of : Bytes → Outcome GoError BaseEvent
event_of (zero ∷ id) = ok (record { typ = allocate_event_type; event_id = []; server_id = pos 7 })
event_of (suc zero ∷ id) =
    ok (record { typ = deallocate_event_type; event_id = []; server_id = pos 7 })
event_of _ = err (external (codes "no event"))

abbrev pub decoder : EventDecoder
decoder = record {
  decode_base = λ m. event_of m >>= λ b. ok (some b);
  decode_allocation = λ m. event_of m >>= λ b. ok (b, drop 1 m);
}
