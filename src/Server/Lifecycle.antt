-- ===== src/Server/Lifecycle.antt =====
-- `Start` and `Stop` of server.go. The goroutines that `Start` makes are in the server's list from
-- their Add to the wait group on.
pub mod Shutdown
pub mod Serving
pub mod Joining
use unity_gaming_services_go.Prelude.{
  ℕ, ◌+◌, ◌-◌, ◌%◌, ◌++◌, List, [], ◌∷◌, Bool, true, false, Option, none, some, Outcome, ok, err,
  panic, Bytes, codes, length, replicate, bytes_eq, ◌==◌, if◌then◌else◌,
}
use unity_gaming_services_go.Sqp.Info.{max_metrics}
use unity_gaming_services_go.Server.Settings.{
  Config, ConfigFiles, new_config_from_file, GoError, wrapped, query_protocol_sqp,
}
use unity_gaming_services_go.Server.{Server, config_watcher, set_config}
use unity_gaming_services_go.Server.Players.{set_server_name, set_game_map}
use unity_gaming_services_go.Server.Events.{Proxy, listen_for_events}
use unity_gaming_services_go.Server.Queries.{Network, switch_query_protocol, close}

-- What `Start` is given: the files, os.MkdirAll, the network, the local proxy, and the value that
-- json.Number's Int64 gives for a text, error or not, in two's complement.
pub record Host : Type 0 where
  pub files : ConfigFiles
  pub make_dirs : Bytes → Outcome GoError (Unit {0})
  pub network : Network
  pub proxy : Proxy
  pub int64_value : Bytes → ℕ

abbrev pub Started : Type 0
Started = Server × Outcome GoError (Unit {0})

abbrev pub step : Started → (Server → Started) → Started
step (s, ok u) k = k s
step (s, err e) k = (s, err e)
step (s, panic) k = (s, panic)

-- `make([]float32, 0, sqp.MaxMetrics)`, for SQP only.
unfoldable pub set_defaults : Config → Server → Server
set_defaults c s =
    let named =
      set_game_map (codes "go-sdk-map")
        (set_server_name (codes "go-sdk-server - " ++ c.server_id) s) in
    if bytes_eq c.query_type query_protocol_sqp
    then record named {
      state = record named.state { metrics = record { array = replicate max_metrics 0; len = 0 } };
    }
    else named

-- `uint16(port)`, and `go s.watchForConfigChanges()`.
unfoldable pub start_watching : Host → Config → Server → Server
start_watching host c s = record s {
  state = record s.state { port = host.int64_value c.port % 65536 };
  wg = s.wg + 1;
  goroutines = config_watcher ∷ s.goroutines;
}

-- What `Start` does once the events are listened for, or not.
unfoldable pub listen : Host → Server → Started
listen host s =
    let p = listen_for_events host.proxy s in
    (p.0, wrapped (codes "error configuring event watcher") p.1)

-- `Start` from the configuration on.
unfoldable pub start_with : Host → Config → Server → Started
start_with host c s =
    step
      (
        set_config c s,
        wrapped (codes "error creating log directory") (host.make_dirs c.server_log_dir),
      )
      λ t.
        step (switch_query_protocol host.network c (set_defaults c t))
          λ u. listen host (start_watching host c u)

abbrev from_config : Host → Server → Outcome GoError Config → Started
from_config host s (ok c) = start_with host c s
from_config host s (err e) = (s, err e)
from_config host s panic = (s, panic)

unfoldable pub start : Host → Server → Started
start host s = from_config host s (new_config_from_file host.files s.cfg_file)

-- How a call of `Stop` ends, when nobody reads the channel of deallocations meanwhile: it returns,
-- it waits for room on that channel, it panics on a channel closed before, it waits for Dones that
-- nothing is left to do.
pub data Stopping : Type 0 where
  returned awaits_reader panics awaits_goroutines : Stopping

-- The goroutines end once `done` and the binding are closed, and each does its Done.
abbrev join : Server → Server
join s = record s { wg = s.wg - length s.goroutines; goroutines = [] }

abbrev wait : Server → Server × Stopping
wait s = if s.wg == 0 then (s, returned) else (s, awaits_goroutines)

abbrev close_done : Server → Bool → Server × Stopping
close_done s true = (s, panics)
close_done s false = wait (join (record s { done = true }))

abbrev publish_stop : Server → Option Bytes → Server × Stopping
publish_stop s (some old) = (s, awaits_reader)
publish_stop s none = close_done (record s { chan_deallocated = some [] }) s.done

unfoldable pub stop : Server → Server × Stopping
unfolding close
stop s = let t = close s in publish_stop t t.chan_deallocated

-- `WaitUntilTerminated`, from the signal on.
unfoldable pub wait_until_terminated : Server → Server × Stopping
wait_until_terminated s = stop s
