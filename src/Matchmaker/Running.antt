-- ===== src/Matchmaker/Running.antt =====
-- The server of matchmaker/server while it runs: the ticks of `keepAliveBackfill` among what the parts
-- of its game server do.
use unity_gaming_services_go.Prelude.{ℕ, suc, ◌≤◌, ◌≡◌, Bool, true, false, List, [], ◌∷◌, length}
use unity_gaming_services_go.Server.{Server}
use unity_gaming_services_go.Server.Lifecycle as Lifecycle
use unity_gaming_services_go.Server.Running.{Action, Fate, goes, dies, act}
use unity_gaming_services_go.Server.Running.Fates.{Decodes}
use unity_gaming_services_go.Server.Running.Alive.{IsRunning}
use unity_gaming_services_go.Matchmaker.{Web, Traffic, keep_alive}

-- A tick, or an action of the game server.
pub data Event : Type 0 where
  ticked : Event
  acts : Action → Event

abbrev fate_of : Bool → Fate
fate_of true = goes
fate_of false = dies

abbrev after_tick : Server × Traffic × Bool → Server × Traffic × Fate
after_tick (s, t, alive) = (s, t, fate_of alive)

abbrev after_act : Traffic → Server × Fate → Server × Traffic × Fate
after_act t (s, fate) = (s, t, fate)

abbrev step : Web → Event → Server → Traffic → Server × Traffic × Fate
step web ticked s t = after_tick (keep_alive web s t)
step web (acts a) s t = after_act t (act a s)

abbrev then_run :
    Server × Traffic × Fate → (Server → Traffic → Server × Traffic × Fate) → Server × Traffic × Fate
then_run (s, t, goes) k = k s t
then_run (s, t, dies) k = (s, t, dies)

-- The server, what it has sent, and whether the process goes on.
unfoldable pub run : Web → List Event → Server → Traffic → Server × Traffic × Fate
run web [] s t = (s, t, goes)
run web (ev ∷ events) s t = then_run (step web ev s t) (λ u v. run web events u v)

abbrev pub DecodesAt : Event → Type 0
DecodesAt ticked = Unit {0}
DecodesAt (acts a) = Decodes a

abbrev pub ticks : List Event → ℕ
ticks [] = 0
ticks (ticked ∷ events) = suc (ticks events)
ticks (acts a ∷ events) = ticks events

-- The server runs, the process goes on, and so many requests have been sent at most.
pub record KeepsOn (most : ℕ) (r : Server × Traffic × Fate) : Type 0 where
  pub running : IsRunning r.0
  pub alive : r.2 ≡ goes
  pub sends : length r.1.requests ≤ most
