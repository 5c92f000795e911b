-- ===== src/Server/Metrics.antt =====
-- SetMetric of server.go. A float32 is its bit pattern.
pub mod Laws
use unity_gaming_services_go.Prelude.{
  ℕ, ◌+◌, ◌%◌, Bool, not, Option, none, some, Outcome, ok, err, panic, Slice, length, set, Bytes,
  bytes_eq, ltb, leb, if◌then◌else◌,
}
use unity_gaming_services_go.Sqp.Info.{max_metrics}
use unity_gaming_services_go.Server.Settings.{
  Config, GoError, metrics_unsupported, metric_out_of_bounds, query_protocol_sqp,
}
use unity_gaming_services_go.Server.{Server}

-- `xs[:n]` up to the capacity; beyond it, a panic.
abbrev pub reslice {ℓ} : {A : Type ℓ} → Slice A → ℕ → Option (Slice A)
reslice xs n = if leb n (length xs.array) then some (record xs { len = n }) else none

abbrev pub write_at {ℓ} : {A : Type ℓ} → Slice A → ℕ → A → Slice A
write_at xs i v = record xs { array = set xs.array i v }

abbrev with_metrics : Server → Slice ℕ → Server
with_metrics s m = record s { state = record s.state { metrics = m } }

abbrev pub grown : Slice ℕ → ℕ → Option (Slice ℕ)
grown m index = if leb m.len index then reslice m ((index + 1) % 256) else some m

abbrev pub written : Server → ℕ → ℕ → Option (Slice ℕ) → Server × Outcome GoError (Unit {0})
written s index value none = (s, panic)
written s index value (some m) = (with_metrics s (write_at m index value), ok tt)

unfoldable pub set_metric : Server → ℕ → ℕ → Server × Outcome GoError (Unit {0})
set_metric s index value =
    if not (bytes_eq s.current_config.query_type query_protocol_sqp)
    then (s, err metrics_unsupported)
    else if leb max_metrics index
    then (s, err metric_out_of_bounds)
    else written s index value (grown s.state.metrics index)
