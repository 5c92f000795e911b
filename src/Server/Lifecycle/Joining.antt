-- ===== src/Server/Lifecycle/Joining.antt =====
-- How `Stop` waits for the goroutines (server.go). Each does its own Add once it runs, so that one
-- that Start has made may do it after the wait.
pub mod Early
use unity_gaming_services_go.Prelude.{ℕ, suc, ◌+◌, ◌-◌, ◌≡◌, Bool, true, false}

-- Where `Stop` stands: before `close(s.done)`, in `s.wg.Wait()`, returned.
pub data Stopper : Type 0 where
  before waiting returned : Stopper

-- The goroutines that have not done their Add, those that have and still run, and the wait group's
-- counter.
pub record Group : Type 0 where
  pub spawned : ℕ
  pub running : ℕ
  pub wg : ℕ
  pub stopper : Stopper

-- After `Start`, before `Stop`. Start waits for the watcher of the configuration and the listener for
-- events to be ready, which have done their Add by then, and not for `handleQuery`.
abbrev pub init : ℕ → ℕ → Group
init spawned running = record {
  spawned = spawned;
  running = running;
  wg = running;
  stopper = before;
}

pub data Step (g : Group) : Group → Type 0 where
  add :
      {k : ℕ}
      → g.spawned ≡ suc k
      → Step g (record g { spawned = k; running = g.running + 1; wg = g.wg + 1 })
  finish : {k : ℕ} → g.running ≡ suc k → Step g (record g { running = k; wg = g.wg - 1 })
  close_done : g.stopper ≡ before → Step g (record g { stopper = waiting })
  wait : g.stopper ≡ waiting → g.wg ≡ 0 → Step g (record g { stopper = returned })

pub data Run (g : Group) : Group → Type 0 where
  start : Run g g
  later : {s t : Group} → Run g s → Step s t → Run g t
