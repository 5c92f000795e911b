-- ===== src/Tests/Methods.antt =====
-- Runs of the configuration file, the metrics and the player counts.
use Prim.Native.Nat.{max}
use unity_gaming_services_go.Prelude.{
  ℕ, zero, suc, ◌↔◌, ◌<◌, ◌≤◌, ◌≡◌, ◌+◌, ◌==◌, refl, Slice, [], ◌∷◌, none, ok, panic, arith,
  replicate, get_or, if◌then◌else◌,
}
use unity_gaming_services_go.Server.Settings.{query_protocol_sqp, ConfigFiles}
use unity_gaming_services_go.Server.{Server}
use unity_gaming_services_go.Server.Players.Count.{joined, left, sets, calls, counts, calls-counts}
use unity_gaming_services_go.Server.Metrics.{set_metric}
use unity_gaming_services_go.Server.Metrics.Laws.{
  IsReady, metric, set_metric-metric, set_metric-panics_iff,
}
use unity_gaming_services_go.Tests.{state, config, files, server, serving}

abbrev null_files : ConfigFiles
null_files = record files { decode_config = λ f. ok none }

zeros : (n j : ℕ) → Path ℕ (get_or (replicate n 0) j 0) 0
zeros zero j = refl
zeros (suc n) zero = refl
zeros (suc n) (suc j) = zeros n j

-- The metrics as `Start` makes them.
abbrev measured : Server
measured = record serving {
  state = record state { metrics = record { array = replicate 10 0; len = 0 } };
}

measured-IsReady : IsReady measured.state.metrics
measured-IsReady = record { capacity = refl; within = omega arith; zeros = λ j h. zeros 10 j }

set_metric-metric_example :
    (m : Slice ℕ) × (set_metric measured 4 77
      ≡ (record measured { state = record measured.state { metrics = m } }, ok tt))
    × IsReady m
    × (m.len ≡ max 0 (4 + 1))
    × ((j : ℕ) → metric m j ≡ (if 4 == j then 77 else metric measured.state.metrics j))
set_metric-metric_example = set_metric-metric measured 4 77 refl measured-IsReady (omega arith)

-- A server that Start has not made metrics for, with a configuration for SQP.
set_metric-panics_iff_example :
    ((set_metric server 4 77).1 ≡ panic)
    ↔ ((config.query_type ≡ query_protocol_sqp) × (4 < 10) × (◌≤◌ 0 4))
set_metric-panics_iff_example = set_metric-panics_iff server 4 77 (omega arith)

calls-counts_example :
    (calls serving (joined ∷ left ∷ sets 9 ∷ left ∷ [])).state.current_players
    ≡ counts 3 (joined ∷ left ∷ sets 9 ∷ left ∷ [])
calls-counts_example =
    calls-counts serving (joined ∷ left ∷ sets 9 ∷ left ∷ [])
      (omega arith, (omega arith, (omega arith, (omega arith, omega arith))))
