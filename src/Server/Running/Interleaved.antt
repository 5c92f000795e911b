-- ===== src/Server/Running/Interleaved.antt =====
-- A started server whose query loop is taken a shared access at a time, interleaved with `Close` and
-- with what the other parts of the server do.
use unity_gaming_services_go.Prelude.{List, ◌++◌, Bytes}
use unity_gaming_services_go.Server.{Server}
use unity_gaming_services_go.Server.Binding.{Binding, Closer, CloseMove}
use unity_gaming_services_go.Server.Binding.Loop.{Work, Step, Loop}
use unity_gaming_services_go.Server.Lifecycle as Lifecycle
use unity_gaming_services_go.Server.Running.{Action, queried, act}
use unity_gaming_services_go.Server.Running.Fates.{Decodes}

-- Not a round of the query loop.
abbrev pub IsOther : Action → Type 0
IsOther (queried os reading) = ⊥
IsOther a = Unit {0}

-- Runs in which the other parts act between any two accesses.
pub data Mixed (os : Bytes) (l : Loop) : Loop → Type 0 where
  begin : Mixed os l l
  step :
      {t : Loop} {w : Work} {s : Server} {out : List (Bytes × Bytes)}
      → Mixed os l t
      → Step os t.bind t.server t.work w s out
      → Mixed os l (record t { work = w; server = s; replies = t.replies ++ out })
  close :
      {t : Loop} {b : Binding} {c : Closer}
      → Mixed os l t
      → CloseMove t.bind t.closer b c
      → Mixed os l (record t { bind = b; closer = c })
  other :
      {t : Loop} (a : Action)
      → Mixed os l t
      → IsOther a
      → Decodes a
      → Mixed os l (record t { server = (act a t.server).0 })
