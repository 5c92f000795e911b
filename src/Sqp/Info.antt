-- ===== src/Sqp/Info.antt =====
-- sqp/encoder.go, sqp/server_info.go and sqp/metrics_info.go.
use Prim.Native.Nat.{min}
use unity_gaming_services_go.Prelude.{
  ℕ, ◌+◌, ◌*◌, ◌%◌, ◌^◌, List, [], Option, none, some, Outcome, ok, panic, ◌>>=◌, Bytes, codes,
  length, replicate, copy, elems,
}
use unity_gaming_services_go.Proto.Challenge.{QueryError}
use unity_gaming_services_go.Proto.Wire.{
  QueryState, Scalar, uint8, uint16, bytes, float32s, Fields, end, field, string, scalar,
  WireEncoder, big_endian, binary_write,
}

-- A text is written behind `byte(len(s))`.
abbrev pub write_string : Bytes → Bytes → Outcome QueryError Bytes
write_string resp s = binary_write big_endian resp (uint8 (length s % 256)) >>= λ out.
    binary_write big_endian out (bytes s)

abbrev pub write : Bytes → Scalar → Outcome QueryError Bytes
write = binary_write big_endian

abbrev pub encoder : WireEncoder
encoder = record { write_string = write_string; write = write }

pub record ServerInfo : Type 0 where
  pub current_players : ℕ
  pub max_players : ℕ
  pub server_name : Bytes
  pub game_type : Bytes
  pub build_id : Bytes
  pub game_map : Bytes
  pub port : ℕ

abbrev pub not_available : Bytes
not_available = codes "n/a"

-- `uint16(…)` of an int32 keeps its low 16 bits.
unfoldable pub query_state_to_server_info : Option QueryState → ServerInfo
query_state_to_server_info none = record {
  current_players = 0;
  max_players = 0;
  server_name = not_available;
  game_type = not_available;
  build_id = [];
  game_map = not_available;
  port = 0;
}
query_state_to_server_info (some qs) = record {
  current_players = qs.current_players % 65536;
  max_players = qs.max_players % 65536;
  server_name = qs.server_name;
  game_type = qs.game_type;
  build_id = [];
  game_map = qs.game_map;
  port = qs.port;
}

unfoldable pub server_info_size : ServerInfo → ℕ
server_info_size si =
    (2
      + 2
      + (length si.server_name + 1)
      + (length si.game_type + 1)
      + (length si.build_id + 1)
      + (length si.game_map + 1)
      + 2)
    % 2 ^ 32

abbrev pub server_info_fields : ServerInfo → Fields
server_info_fields si = field (scalar (uint16 si.current_players)) (
    field (scalar (uint16 si.max_players)) (
      field (string si.server_name) (
        field (string si.game_type) (
          field (string si.build_id)
            (field (string si.game_map) (field (scalar (uint16 si.port)) end))))))

pub record MetricsInfo : Type 0 where
  pub count : ℕ
  pub values : List ℕ

abbrev pub max_metrics : ℕ
max_metrics = 10

-- `make` and `copy`: the values are zeros overwritten by the state's metrics. A nil state is
-- dereferenced.
unfoldable pub query_state_to_metrics : Option QueryState → Outcome QueryError MetricsInfo
query_state_to_metrics none = panic
query_state_to_metrics (some qs) =
    let l = min qs.metrics.len max_metrics % 256 in
    ok (record { count = l; values = copy (replicate l 0) (elems qs.metrics) })

unfoldable pub metrics_info_size : MetricsInfo → ℕ
metrics_info_size m = (1 + length m.values * 4) % 2 ^ 32

abbrev pub metrics_info_fields : MetricsInfo → Fields
metrics_info_fields m = field (scalar (uint8 m.count)) (field (scalar (float32s m.values)) end)
