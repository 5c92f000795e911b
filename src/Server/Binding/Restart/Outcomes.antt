-- ===== src/Server/Binding/Restart/Outcomes.antt =====
-- How a loop can end that waits for a datagram while the endpoint is restarted.
use unity_gaming_services_go.Prelude.{ap, subst, ◌∙◌, ℕ, suc, ◌<◌, ◌≡◌, refl, none, some, arith}
use unity_gaming_services_go.Server.Binding.{
  read, receiving, stopped, crashed, receive_fails, return_reading, retry_reading, returned,
}
use unity_gaming_services_go.Server.Binding.Restart.{
  place, load, load_nil, leave, idle, closing, opening, Endpoint, update, open_binding, forget,
  bind_new, launch, new_endpoint, Reach, here, by_loop, by_restart, Serves, none_yet, then_serve,
}
use unity_gaming_services_go.Server.Binding.Restart.Handover.{
  update_self, update_other, Pointed, run-IsHandover,
}
use unity_gaming_services_go.Server.Binding.Restart.Receiving.{over, first, lift}
use unity_gaming_services_go.Server.Binding.Restart.Adoption.{
  IsAdopted, Serves-SameEndpoint, Serves-IsAdopted,
}

then-Reach : {e t u : Endpoint} → Reach e t → Serves t u → Reach e u
then-Reach r none_yet = r
then-Reach r (then_serve s m) = by_loop (then-Reach r s) m

-- Behind the launch of the new loop, in an endpoint whose pointer has been forgotten.
abbrev relaunched : Endpoint → Endpoint
relaunched e = record e {
  heap = update e.heap e.next open_binding;
  next = suc e.next;
  bind = some e.next;
  loops = update e.loops e.count (place none read);
  count = suc e.count;
  restarter = idle;
}

-- Some run lets loop `i` return; panic; serve through the new binding, as the new loop does.
abbrev pub CanReturn : Endpoint → ℕ → Type 0
CanReturn e i = (t : Endpoint) × Reach e t × ((t.loops i).at ≡ stopped)

abbrev pub CanPanic : Endpoint → ℕ → Type 0
CanPanic e i = (t : Endpoint) × Reach e t × ((t.loops i).at ≡ crashed)

abbrev pub CanStay : Endpoint → ℕ → Type 0
CanStay e i =
    (t : Endpoint) × Reach e t
    × (t.restarter ≡ idle)
    × (t.bind ≡ some e.next)
    × (t.count ≡ suc e.count)
    × IsAdopted e.next t.loops i
    × IsAdopted e.next t.loops e.count

module _ (e : Endpoint) (a i : ℕ) (r : Reach new_endpoint e) (s : e.restarter ≡ closing a returned)
    (l : i < e.count) (w : e.loops i ≡ place (some a) receiving) where
  -- The pointer is still to the closed binding.
  returns : CanReturn e i
  returns =
      let k = subst (λ x. Pointed x e.bind e.heap) s (run-IsHandover r).pointed in
      let u =
        lift
          (first (leave receive_fails refl) (
            first (load refl k.0)
              (first (leave (return_reading (ap (λ b. b.done) k.1)) refl) over)))
          e e i none_yet l refl refl w in
      (u.0, then-Reach here u.1, ap (λ p. p.at) u.2)

  -- The pointer is nil.
  panics : CanPanic e i
  panics =
      let f = record e { bind = none; restarter = opening } in
      let u =
        lift {heap = f.heap} {bind = none}
          (first (leave receive_fails refl) (first (load_nil refl refl) over)) f f i none_yet l refl
          refl w in
      (u.0, then-Reach (by_restart here (forget s)) u.1, ap (λ p. p.at) u.2)

  relaunch : Reach e (relaunched e)
  relaunch = by_restart (by_restart (by_restart here (forget s)) (bind_new refl)) (launch refl)

  -- The pointer is to the new binding.
  stays : CanStay e i
  stays =
      let t = relaunched e in
      let o = update_self e.heap e.next open_binding in
      let u =
        lift {heap = t.heap} {bind = t.bind}
          (first (leave receive_fails refl)
            (first (load refl refl) (first (leave (retry_reading (ap (λ b. b.done) o)) refl) over)))
          t t i none_yet (omega (arith, l)) refl refl
          (update_other e.loops e.count i (place none read) (omega (arith, l)) ∙ w) in
      let same = Serves-SameEndpoint u.1 in
      (
        u.0,
        then-Reach relaunch u.1,
        same.same_restarter,
        same.same_bind,
        same.same_count,
        rw u.2 refl,
        Serves-IsAdopted e.next e.count u.1 refl o
            (rw (update_self e.loops e.count (place none read)) refl),
      )

-- In a reachable state in which a restart has closed the binding of a loop that waits for a
-- datagram, and has not set the pointer to nil yet: there is a run in which that loop returns,
-- one in which it panics, and one in which the restart ends and that loop serves the new binding
-- next to the new loop.
pub restarted_loop_can :
    (e : Endpoint) (a i : ℕ)
    → Reach new_endpoint e
    → e.restarter ≡ closing a returned
    → i < e.count
    → e.loops i ≡ place (some a) receiving
    → CanReturn e i × CanPanic e i × CanStay e i
restarted_loop_can e a i r s l w =
    (returns e a i r s l w, panics e a i r s l w, stays e a i r s l w)
