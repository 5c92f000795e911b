-- ===== src/Server/Settings.antt =====
-- config.go: the configuration file. A json.Number is its text.
pub mod Load
use unity_gaming_services_go.Prelude.{
  ℕ, List, [], ◌∷◌, Bool, Option, none, some, Outcome, ok, err, panic, ◌>>=◌, or_panic, Bytes,
  codes, bytes_eq, if◌then◌else◌,
}
use unity_gaming_services_go.Proto.Challenge.{QueryError}

-- Errors of the server: those that it declares, those of a query responder, those of packages that
-- it calls (by their text), and what fmt.Errorf wraps.
pub data GoError : Type 0 where
  operation_not_applicable nil_context nil_args : GoError
  metrics_unsupported metric_out_of_bounds not_allocated : GoError
  unsupported_query_type binding_closed eof : GoError
  token_fetch retry backfill_approve backfill_not_allocated : GoError
  query : QueryError → GoError
  unexpected_response : Bytes → ℕ → Bytes → GoError
  external : Bytes → GoError
  wrap : Bytes → GoError → GoError

-- A Go map from strings to strings.
abbrev pub Extra : Type 0
Extra = Bytes → Option Bytes

pub record Config : Type 0 where
  pub allocated_uuid : Bytes
  pub fleet_id : Bytes
  pub ip : Bytes
  pub ipv6 : Bytes
  pub local_proxy_url : Bytes
  pub machine_id : Bytes
  pub port : Bytes
  pub query_port : Bytes
  pub query_type : Bytes
  pub region_id : Bytes
  pub region_name : Bytes
  pub server_id : Bytes
  pub server_log_dir : Bytes
  pub extra : Extra

abbrev pub empty_config : Config
empty_config = record {
  allocated_uuid = [];
  fleet_id = [];
  ip = [];
  ipv6 = [];
  local_proxy_url = [];
  machine_id = [];
  port = [];
  query_port = [];
  query_type = [];
  region_id = [];
  region_name = [];
  server_id = [];
  server_log_dir = [];
  extra = λ k. none;
}

-- query.go
abbrev pub query_protocol_a2s : Bytes
query_protocol_a2s = codes "a2s"

abbrev pub query_protocol_sqp : Bytes
query_protocol_sqp = codes "sqp"

abbrev pub query_protocol_recommended : Bytes
query_protocol_recommended = query_protocol_sqp

abbrev pub default_local_proxy_url : Bytes
default_local_proxy_url = codes "http://localhost:8086"

-- What packages os and encoding/json do with the file. A JSON null decodes to a nil pointer.
pub record ConfigFiles : Type 0 where
  pub open_file : Bytes → Outcome GoError Bytes
  pub decode_config : Bytes → Outcome GoError (Option Config)
  pub seek : Bytes → Outcome GoError (Unit {0})
  pub decode_extra : Bytes → Outcome GoError Extra

abbrev pub wrapped {ℓ} : {A : Type ℓ} → Bytes → Outcome GoError A → Outcome GoError A
wrapped text (ok a) = ok a
wrapped text (err e) = err (wrap text e)
wrapped text panic = panic

abbrev pub delete : Bytes → Extra → Extra
delete k m j = if bytes_eq k j then none else m j

pub delete_all : List Bytes → Extra → Extra
delete_all [] m = m
delete_all (k ∷ ks) m = delete_all ks (delete k m)

-- The `json` tags of Config's fields, that of Extra among them.
abbrev pub json_tags : List Bytes
json_tags =
    codes "allocatedUUID"
    ∷ codes "fleetID"
    ∷ codes "ip"
    ∷ codes "ipv6"
    ∷ codes "localProxyUrl"
    ∷ codes "machineID"
    ∷ codes "port"
    ∷ codes "queryPort"
    ∷ codes "queryType"
    ∷ codes "regionID"
    ∷ codes "regionName"
    ∷ codes "serverID"
    ∷ codes "serverLogDir"
    ∷ codes "-"
    ∷ []

abbrev pub default_if_empty : Bytes → Bytes → Bytes
default_if_empty d [] = d
default_if_empty d (b ∷ s) = b ∷ s

unfoldable pub with_defaults : Config → Config
with_defaults c = record c {
  query_type = default_if_empty query_protocol_recommended c.query_type;
  local_proxy_url = default_if_empty default_local_proxy_url c.local_proxy_url;
}

unfoldable pub new_config_from_file : ConfigFiles → Bytes → Outcome GoError Config
unfolding with_defaults
new_config_from_file files config_file = do
  f ← wrapped (codes "error opening file") (files.open_file config_file)
  decoded ← wrapped (codes "error decoding json") (files.decode_config f)
  _ ← wrapped (codes "unable to seek") (files.seek f)
  cfg ← or_panic decoded
  extra ← wrapped (codes "error decoding json") (files.decode_extra f)
  ok (with_defaults (record cfg { extra = delete_all json_tags extra }))
