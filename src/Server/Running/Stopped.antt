-- ===== src/Server/Running/Stopped.antt =====
-- From `Start` to `Stop`, whatever happens in between.
use unity_gaming_services_go.Prelude.{ℕ, ◌≡◌, List, Bool, none, some, Bytes}
use unity_gaming_services_go.Server.{Server, Goroutine}
use unity_gaming_services_go.Server.Lifecycle.{stop, returned, awaits_reader}

-- What Stop looks at, but for the channel.
abbrev group : Server → ℕ × List Goroutine × Bool
group s = (s.wg, s.goroutines, s.done)

-- `Stop`, by the channel of deallocations.
abbrev pub EndsBy : Server → Type 0
EndsBy t =
    (t.chan_deallocated ≡ none → (stop t).1 ≡ returned)
    × ((old : Bytes) → t.chan_deallocated ≡ some old → (stop t).1 ≡ awaits_reader)
