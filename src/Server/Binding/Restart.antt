-- ===== src/Server/Binding/Restart.antt =====
-- query.go and bind.go when the endpoint is restarted: `restartQueryEndpoint` against the loops of
-- `handleQuery` that run already, a shared access at a time. The bindings stand in a heap, since the
-- loops reach theirs through the pointer `s.queryBind`, which they load again for every call.
pub mod Handover
pub mod Receiving
pub mod Adoption
pub mod Outcomes
pub mod Placed
pub mod Left
pub mod Ending
use unity_gaming_services_go.Prelude.{
  ℕ, suc, ◌<◌, ◌==◌, ◌≡◌, Bool, true, false, Option, none, some, if◌then◌else◌,
}
use unity_gaming_services_go.Server.Binding.{
  Binding, Reader, read, read_checked, read_timed, receiving, read_error, responding, write,
  write_checked, write_timed, sending, write_error, stopped, crashed, Move, Closer, outside,
  returned, CloseMove,
}

-- A loop: the binding whose method it is in, when it has loaded the pointer for that, and its point.
pub record Place : Type 0 where
  pub loaded : Option ℕ
  pub at : Reader

abbrev pub place : Option ℕ → Reader → Place
place c p = record { loaded = c; at = p }

-- The points that call a method through `s.queryBind`: Read, IsDone, Write, IsDone.
abbrev pub loads : Reader → Bool
loads read = true
loads read_error = true
loads write = true
loads write_error = true
loads p = false

-- The points within `Read` and `Write`, whose receiver stays what was loaded.
abbrev pub within : Reader → Bool
within read_checked = true
within read_timed = true
within receiving = true
within write_checked = true
within write_timed = true
within sending = true
within p = false

-- A step of a loop. A method called on a nil pointer panics.
pub data LoopStep (heap : ℕ → Binding) (bind : Option ℕ)
    : Option ℕ → Reader → Option ℕ → Reader → Type 0 where
  load :
      {a : ℕ} {p : Reader} → loads p ≡ true → bind ≡ some a → LoopStep heap bind none p (some a) p
  load_nil : {p : Reader} → loads p ≡ true → bind ≡ none → LoopStep heap bind none p none crashed
  stay :
      {a : ℕ} {p r : Reader}
      → Move (heap a) p r
      → within r ≡ true
      → LoopStep heap bind (some a) p (some a) r
  leave :
      {a : ℕ} {p r : Reader}
      → Move (heap a) p r
      → within r ≡ false
      → LoopStep heap bind (some a) p none r
  answered : LoopStep heap bind none responding none write
  refused : LoopStep heap bind none responding none read

-- Where `restartQueryEndpoint` stands: not called, in `Close` of a binding, behind
-- `s.queryBind = nil`, behind `newUDPBinding`; or that `Stop` is in `Close` of the binding, or past it.
pub data Restarter : Type 0 where
  idle : Restarter
  closing : ℕ → Closer → Restarter
  opening launching : Restarter
  stopping : ℕ → Closer → Restarter

-- The bindings made so far are those below `next`, the loops started those below `count`.
pub record Endpoint : Type 0 where
  pub heap : ℕ → Binding
  pub next : ℕ
  pub bind : Option ℕ
  pub loops : ℕ → Place
  pub count : ℕ
  pub restarter : Restarter

unfoldable pub update : {A : Type 0} → (ℕ → A) → ℕ → A → ℕ → A
update f i x j = if j == i then x else f j

abbrev pub open_binding : Binding
open_binding = record { conn = some false; done = false }

-- A step of a loop, which leaves the endpoint as it is.
pub data Serve (e : Endpoint) : Endpoint → Type 0 where
  serve :
      {c : Option ℕ} {r : Reader} (i : ℕ)
      → i < e.count
      → LoopStep e.heap e.bind (e.loops i).loaded (e.loops i).at c r
      → Serve e (record e { loops = update e.loops i (place c r) })

-- A step of `restartQueryEndpoint`. What `newUDPBinding` returns is stored in the pointer, nil when
-- it fails.
pub data Restart (e : Endpoint) : Endpoint → Type 0 where
  begin_close :
      {a : ℕ}
      → e.restarter ≡ idle
      → e.bind ≡ some a
      → Restart e (record e { restarter = closing a outside })
  nothing_open : e.restarter ≡ idle → e.bind ≡ none → Restart e (record e { restarter = opening })
  close :
      {a : ℕ} {b : Binding} {p c : Closer}
      → e.restarter ≡ closing a p
      → CloseMove (e.heap a) p b c
      → Restart e (record e { heap = update e.heap a b; restarter = closing a c })
  forget :
      {a : ℕ}
      → e.restarter ≡ closing a returned
      → Restart e (record e { bind = none; restarter = opening })
  bind_new :
      e.restarter ≡ opening
      → Restart e (record e {
        heap = update e.heap e.next open_binding;
        next = suc e.next;
        bind = some e.next;
        restarter = launching;
      })
  bind_fails : e.restarter ≡ opening → Restart e (record e { bind = none; restarter = idle })
  launch :
      e.restarter ≡ launching
      → Restart e (record e {
        loops = update e.loops e.count (place none read);
        count = suc e.count;
        restarter = idle;
      })

-- A step of `Stop` on the binding, which it closes and leaves in the pointer.
pub data Stop (e : Endpoint) : Endpoint → Type 0 where
  begin_stop :
      {a : ℕ}
      → e.restarter ≡ idle
      → e.bind ≡ some a
      → Stop e (record e { restarter = stopping a outside })
  close_stop :
      {a : ℕ} {b : Binding} {p c : Closer}
      → e.restarter ≡ stopping a p
      → CloseMove (e.heap a) p b c
      → Stop e (record e { heap = update e.heap a b; restarter = stopping a c })

-- A server that has no endpoint yet.
abbrev pub new_endpoint : Endpoint
new_endpoint = record {
  heap = λ a. open_binding;
  next = 0;
  bind = none;
  loops = λ i. place none stopped;
  count = 0;
  restarter = idle;
}

-- Runs of one restart after another, then of `Stop`, and of all the loops, in any order.
pub data Reach (e : Endpoint) : Endpoint → Type 0 where
  here : Reach e e
  by_loop : {t u : Endpoint} → Reach e t → Serve t u → Reach e u
  by_restart : {t u : Endpoint} → Reach e t → Restart t u → Reach e u
  by_stop : {t u : Endpoint} → Reach e t → Stop t u → Reach e u

-- Runs of the loops alone.
pub data Serves (e : Endpoint) : Endpoint → Type 0 where
  none_yet : Serves e e
  then_serve : {t u : Endpoint} → Serves e t → Serve t u → Serves e u
