-- ===== src/Server/Lifecycle/Joining/Early.antt =====
-- When `Stop` can return while a goroutine still runs.
use unity_gaming_services_go.Prelude.{◌<◌, ◌≡◌}
use unity_gaming_services_go.Server.Lifecycle.Joining.{returned, Group, Run}

-- Nobody is left to do an Add, and once Stop has returned nobody runs.
record IsJoined (s : Group) : Type 0 where
  none_spawned : s.spawned ≡ 0
  none_running : s.stopper ≡ returned → s.running ≡ 0

-- A run to a state in which Stop has returned and a goroutine runs.
abbrev pub LeavesRunning : Group → Type 0
LeavesRunning g = (s : Group) × Run g s × (s.stopper ≡ returned) × (0 < s.running)
