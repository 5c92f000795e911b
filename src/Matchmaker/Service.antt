-- ===== src/Matchmaker/Service.antt =====
-- server.go of matchmaker/server: Start and Stop around those of the game server.
use unity_gaming_services_go.Prelude.{
  List, Bool, true, false, Outcome, ok, err, panic, Bytes, if◌then◌else◌,
}
use unity_gaming_services_go.Server.Settings.{GoError}
use unity_gaming_services_go.Server.{Server, ServerType, Opt}
use unity_gaming_services_go.Server as Gsh
use unity_gaming_services_go.Server.Lifecycle.{Host, Stopping, panics}
use unity_gaming_services_go.Server.Lifecycle as Lifecycle
use unity_gaming_services_go.Matchmaker.{backfill_enabled}

-- `keeping` is whether the goroutine of `keepAliveBackfill` runs, `done` whether that channel is
-- closed.
pub record BackfillServer : Type 0 where
  pub base : Server
  pub keeping : Bool
  pub done : Bool

abbrev wrap_base : Outcome GoError Server → Outcome GoError BackfillServer
wrap_base (ok s) = ok (record { base = s; keeping = false; done = false })
wrap_base (err e) = err e
wrap_base panic = panic

unfoldable pub new :
    (Bytes → Bytes → Bytes)
    → Outcome GoError Bytes
    → ServerType
    → List Opt
    → Outcome GoError BackfillServer
new join home t opts = wrap_base (Gsh.new join home t opts)

abbrev pub after_start :
    BackfillServer → Lifecycle.Started → BackfillServer × Outcome GoError (Unit {0})
after_start m (s, ok u) =
    (record m { base = s; keeping = backfill_enabled s.current_config }, ok tt)
after_start m (s, err e) = (record m { base = s }, err e)
after_start m (s, panic) = (record m { base = s }, panic)

unfoldable pub start : Host → BackfillServer → BackfillServer × Outcome GoError (Unit {0})
start host m = after_start m (Lifecycle.start host m.base)

-- The loop ends once `done` is closed, which panics the second time.
unfoldable pub stop : BackfillServer → BackfillServer × Stopping
stop m =
    let p = Lifecycle.stop m.base in
    if m.done then (m, panics) else (record { base = p.0; keeping = false; done = true }, p.1)

-- `WaitUntilTerminated`, from the signal on.
unfoldable pub wait_until_terminated : BackfillServer → BackfillServer × Stopping
wait_until_terminated m = stop m
