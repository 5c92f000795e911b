-- ===== src/Server/Binding/Phases.antt =====
-- What `Close` has done to the binding, and what that says of the loop.
use unity_gaming_services_go.Prelude.{ap, sym, ◌∙◌, ℕ, ◌≡◌, refl, true, false, none, some}
use unity_gaming_services_go.Server.Binding.{
  Binding, Reader, stopped, crashed, Move, set_read_deadline_nil, read_from_udp_nil, return_reading,
  set_write_deadline_nil, write_to_nil, return_writing, Closer, outside, closing, marked,
  disconnected, returned, CloseMove, already_done, check_done, close_done, close_conn, forget_conn,
  System, init, Run, start, query, stop,
}

-- The binding at each point of `Close`.
abbrev pub binding_at : Closer → Binding
binding_at outside = record { conn = some false; done = false }
binding_at closing = record { conn = some false; done = false }
binding_at marked = record { conn = some false; done = true }
binding_at disconnected = record { conn = some true; done = true }
binding_at returned = record { conn = none; done = true }

-- The loop stops only once `done` is closed, retries only while the connection is open, and panics
-- only after the connection is forgotten.
pub record IsPhased (s : System) : Type 0 where
  pub phase : s.bind ≡ binding_at s.closer
  pub retries_open : s.bind.done ≡ false → s.bind.conn ≡ some false
  pub stops_done : s.reader ≡ stopped → s.bind.done ≡ true
  pub crashes_nil : s.reader ≡ crashed → s.bind.conn ≡ none

open_at : (c : Closer) → (binding_at c).done ≡ false → (binding_at c).conn ≡ some false
open_at outside e = refl
open_at closing e = refl
open_at marked e = absurd (cc)
open_at disconnected e = absurd (cc)
open_at returned e = absurd (cc)

retries-open : (b : Binding) (c : Closer) → b ≡ binding_at c → b.done ≡ false → b.conn ≡ some false
retries-open b c e d = ap (λ x. x.conn) e ∙ open_at c (ap (λ x. x.done) (sym e) ∙ d)

stopped-done : {b : Binding} {p r : Reader} → Move b p r → r ≡ stopped → b.done ≡ true
stopped-done (return_reading d) e = d
stopped-done (return_writing d) e = d
stopped-done mv e = cc

crashed-nil : {b : Binding} {p r : Reader} → Move b p r → r ≡ crashed → b.conn ≡ none
crashed-nil (set_read_deadline_nil c) e = c
crashed-nil (read_from_udp_nil c) e = c
crashed-nil (set_write_deadline_nil c) e = c
crashed-nil (write_to_nil c) e = c
crashed-nil mv e = cc

-- A step of `Close` leaves the binding of its next point, and undoes nothing.
pub CloseMove-phase :
    {b b' : Binding} {p c : Closer}
    → CloseMove b p b' c
    → b ≡ binding_at p
    → (b' ≡ binding_at c) × (b.done ≡ true → b'.done ≡ true) × (b.conn ≡ none → b'.conn ≡ none)
CloseMove-phase (already_done d) e = absurd (let d' = rw e at d in cc)
CloseMove-phase (check_done d) e = (e, λ k. k, λ k. k)
CloseMove-phase close_done e =
    (ap {A = Binding} {B = Binding} (λ x. record x { done = true }) e, λ k. refl, λ k. k)
CloseMove-phase (close_conn c) e = (
  ap {A = Binding} {B = Binding} (λ x. record x { conn = some true }) e,
  λ k. k,
  λ k. absurd (let k' = sym c ∙ k in cc),
)
CloseMove-phase forget_conn e =
    (ap {A = Binding} {B = Binding} (λ x. record x { conn = none }) e, λ k. k, λ k. refl)

-- In every state reachable from a new binding, at whatever points the loop of handleQuery and
-- Close interleave: the binding is what Close has made of it so far; while done is not closed, so
-- that the loop reports errors and retries, the connection is open; the loop has returned only if
-- done is closed, and has panicked only if the connection is nil.
pub run-IsPhased : {n : ℕ} {s : System} → Run init n s → IsPhased s
run-IsPhased start = record {
  phase = refl;
  retries_open = λ d. refl;
  stops_done = λ e. cc;
  crashes_nil = λ e. cc;
}
run-IsPhased (query r mv) = record {
  phase = (run-IsPhased r).phase;
  retries_open = (run-IsPhased r).retries_open;
  stops_done = stopped-done mv;
  crashes_nil = crashed-nil mv;
}
run-IsPhased (stop r mv) =
    let h = run-IsPhased r in
    let k = CloseMove-phase mv h.phase in
    record {
      phase = k.0;
      retries_open = retries-open _ _ k.0;
      stops_done = λ e. k.1 (h.stops_done e);
      crashes_nil = λ e. k.2 (h.crashes_nil e);
    }
