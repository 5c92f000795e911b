-- ===== src/Server/Binding/Loop/Rounds.antt =====
-- The loop of `handleQuery`, a shared access at a time, and its rounds in `Queries`: both come to
-- the same.
use unity_gaming_services_go.Prelude.{subst, ◌∙◌, ◌≡◌, ◌≢◌, ◌↔◌, refl, List, [], false, some, Bytes}
use unity_gaming_services_go.Server.{Server}
use unity_gaming_services_go.Server.Queries.{Next, again, stopped, crashed, Turn, turn}
use unity_gaming_services_go.Server.Binding.Loop.{reading, returned, panicked, Loop, loop, Runs}
use unity_gaming_services_go.Server.Binding.Loop.Matches.{closes_bind, Gives}
use unity_gaming_services_go.Server.Binding.Loop.Refines.{runs-Agrees}
use unity_gaming_services_go.Server.Binding.Loop.Realises.{Ends, Realised, handle_query-Realised}

-- The loop at the start of a round, or returned, the binding then closed; or panicked.
abbrev pub Stands : Next → Server → Loop → Type 0
Stands again s t = (t.work ≡ reading) × (t.server ≡ s)
Stands stopped s t = (t.work ≡ returned) × (closes_bind t.server ≡ s)
Stands crashed s t = (t.work ≡ panicked) × (t.server ≡ s)

-- Some run of the loop against `Close`, from a new binding.
abbrev pub Comes : Bytes → Server → Turn → Type 0
Comes os s0 u =
    (t : Loop) × Runs os (loop s0) t × (t.replies ≡ u.replies) × Stands u.next u.server t

Ends-Stands : (next : Next) (s : Server) (t : Loop) → Ends next s t → Stands next s t
Ends-Stands again s t h = (rw h.0 refl, rw h.0 refl)
Ends-Stands stopped s t h = h
Ends-Stands crashed s t h = h

rounds-Comes :
    (os : Bytes) (s0 : Server) (u : Turn)
    → s0.query_bind ≡ some false
    → Gives os s0 u
    → Comes os s0 u
rounds-Comes os s0 u b g =
    let h = subst (Realised os (loop s0) []) g.1 (handle_query-Realised os g.0 s0 b) in
    (h.0, h.1, h.2, Ends-Stands u.next u.server h.0 h.3)

Comes-rounds :
    (os : Bytes) (s0 : Server) (next : Next) (s : Server) (rep : List (Bytes × Bytes))
    → s0.query_bind ≡ some false
    → next ≢ crashed
    → Comes os s0 (turn s rep next)
    → Gives os s0 (turn s rep next)
Comes-rounds os s0 again s rep b n (t, r, e, (w, k)) =
    let h = runs-Agrees os s0 b r in (h.readings, h.rests w ∙ (rw (e, k) refl))
Comes-rounds os s0 stopped s rep b n (t, r, e, (w, k)) =
    let h = runs-Agrees os s0 b r in (h.readings, h.ends w ∙ (rw (e, k) refl))
Comes-rounds os s0 crashed s rep b n h = absurd (n refl)

-- On a server with an open binding, the loop of handleQuery as rounds that each take one reading
-- at once, and the loop a shared access at a time against Close, from a new binding: for any
-- server and answers sent, some readings make the rounds end there, to go on or returned, exactly
-- if some run of the detailed loop comes there, to the start of a round, or returned, with the
-- same answers in the same order. (The server of the rounds shows that its binding is closed when
-- they return.)
pub rounds_iff :
    (os : Bytes) (s0 : Server) (u : Turn)
    → s0.query_bind ≡ some false
    → u.next ≢ crashed
    → Gives os s0 u ↔ Comes os s0 u
rounds_iff os s0 u b n = (rounds-Comes os s0 u b, Comes-rounds os s0 u.next u.server u.replies b n)
