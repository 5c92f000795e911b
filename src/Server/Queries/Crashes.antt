-- ===== src/Server/Queries/Crashes.antt =====
-- When a datagram crashes the loop of `handleQuery`.
use unity_gaming_services_go.Prelude.{◌<◌, ◌≡◌, ◌↔◌, Bool, Option, Bytes}
use unity_gaming_services_go.Proto.Challenge.{Readings}
use unity_gaming_services_go.Sqp.Faults as SqpFaults
use unity_gaming_services_go.A2s as A2s
use unity_gaming_services_go.Server.Settings.{GoError}
use unity_gaming_services_go.Server.{Server}
use unity_gaming_services_go.Server.Queries.{crashed, Turn, read_into}

module _ (os : Bytes) (s : Server) (client d : Bytes) (r : Readings) (closes : Bool)
    (w : Option GoError) where
  Crashes : Turn → Type 0
  Crashes t = (t.next ≡ crashed) ↔ (s.query_read_buffer_size_bytes < 5)

  buf : Bytes
  buf = read_into s.query_read_buffer_size_bytes d
