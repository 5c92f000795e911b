-- ===== src/Matchmaker/Ticks.antt =====
-- The loop of `keepAliveBackfill` over the ticks of its ticker, with changes of the configuration in
-- between, until `done` is closed: the end of the list.
pub mod Sends
pub mod Traffics
use unity_gaming_services_go.Prelude.{List, [], ◌∷◌, Bool, true, false}
use unity_gaming_services_go.Server.Settings.{Config}
use unity_gaming_services_go.Server.{Server, set_config}
use unity_gaming_services_go.Matchmaker.{Web, Traffic, keep_alive}

pub data Beat : Type 0 where
  tick : Beat
  configured : Config → Beat

abbrev pub go_on :
    Server × Traffic × Bool → (Server → Traffic → Server × Traffic × Bool) → Server × Traffic × Bool
go_on (s, t, true) k = k s t
go_on (s, t, false) k = (s, t, false)

unfoldable pub keep_alive_backfill : Web → List Beat → Server → Traffic → Server × Traffic × Bool
keep_alive_backfill web [] s t = (s, t, true)
keep_alive_backfill web (tick ∷ beats) s t =
    go_on (keep_alive web s t) (λ u v. keep_alive_backfill web beats u v)
keep_alive_backfill web (configured c ∷ beats) s t =
    keep_alive_backfill web beats (set_config c s) t
