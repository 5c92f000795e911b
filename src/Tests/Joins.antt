-- ===== src/Tests/Joins.antt =====
-- A run of `Stop` against a query loop that has not done its Add.
use unity_gaming_services_go.Server.Lifecycle.Joining.{Group, init, waiting}

abbrev late : Group
late = record (init 1 2) { stopper = waiting }
