-- ===== src/Server/Binding/Restart/Adoption.antt =====
-- What becomes of the loops that run when the endpoint is restarted.
use unity_gaming_services_go.Prelude.{
  ap, sym, subst, ◌∙◌, ℕ, ◌<◌, ◌≡◌, refl, true, Option, some, ℕ_discrete,
}
use unity_gaming_services_go.Server.Binding.{Reader, receiving}
use unity_gaming_services_go.Server.Binding.Restart.{
  Place, place, idle, Endpoint, update, open_binding, serve, new_endpoint, Reach, Serves, none_yet,
  then_serve,
}
use unity_gaming_services_go.Server.Binding.Restart.Receiving.{
  serves, LoopStep-serves, lift, loop-CanReceive,
}
use unity_gaming_services_go.Server.Binding.Restart.Handover.{
  update_self, update_other, Pointed, run-IsHandover,
}

-- Loop `i` serves through the binding `a`.
abbrev pub IsAdopted : ℕ → (ℕ → Place) → ℕ → Type 0
IsAdopted a loops i = serves a (loops i).loaded (loops i).at ≡ true

IsAdopted-update :
    (a : ℕ) (loops : ℕ → Place) (i j : ℕ) (c : Option ℕ) (r : Reader)
    → i ≡ j
    → (IsAdopted a loops j → serves a c r ≡ true)
    → IsAdopted a loops i
    → IsAdopted a (update loops j (place c r)) i
IsAdopted-update a loops i j c r d k h =
    subst (IsAdopted a (update loops j (place c r))) (sym d)
      (rw (update_self loops j (place c r)) (k (subst (IsAdopted a loops) d h)))

-- The loops alone keep the endpoint.
pub record SameEndpoint (e t : Endpoint) : Type 0 where
  pub same_heap : t.heap ≡ e.heap
  pub same_bind : t.bind ≡ e.bind
  pub same_count : t.count ≡ e.count
  pub same_restarter : t.restarter ≡ e.restarter

pub Serves-SameEndpoint : {e t : Endpoint} → Serves e t → SameEndpoint e t
Serves-SameEndpoint none_yet = record {
  same_heap = refl;
  same_bind = refl;
  same_count = refl;
  same_restarter = refl;
}
Serves-SameEndpoint (then_serve run (serve j l m)) =
    let k = Serves-SameEndpoint run in
    record {
      same_heap = k.same_heap;
      same_bind = k.same_bind;
      same_count = k.same_count;
      same_restarter = k.same_restarter;
    }

pub Serves-IsAdopted :
    {e t : Endpoint} (a i : ℕ)
    → Serves e t
    → e.bind ≡ some a
    → e.heap a ≡ open_binding
    → IsAdopted a e.loops i
    → IsAdopted a t.loops i
Serves-IsAdopted a i none_yet b o h = h
Serves-IsAdopted a i (then_serve {t} run (serve {c} {r} j l m)) b o h =
    let same = Serves-SameEndpoint run in
    let k = Serves-IsAdopted a i run b o h in
    elim (ℕ_discrete i j) [
      | yes d ↦
          IsAdopted-update a t.loops i j c r d
            (LoopStep-serves a m (same.same_bind ∙ b) (ap (λ f. f a) same.same_heap ∙ o)) k
      | no d ↦ rw (update_other t.loops j i (place c r) d) k
    ]

-- In a reachable state with no restart under way and the pointer of the server to a binding: a
-- loop of handleQuery, started by whichever restart, that has neither returned nor panicked and
-- is in no method of another binding, stays so over any run of the loops, and can then go on to
-- wait for a datagram on that binding.
pub old_loop_serves :
    {e t : Endpoint} (a i : ℕ)
    → Reach new_endpoint e
    → e.restarter ≡ idle
    → e.bind ≡ some a
    → i < e.count
    → IsAdopted a e.loops i
    → Serves e t
    → IsAdopted a t.loops i × ((u : Endpoint) × Serves t u × (u.loops i ≡ place (some a) receiving))
old_loop_serves {e} {t} a i r s b l h run =
    let o = subst (λ x. Pointed x e.bind e.heap) s (run-IsHandover r).pointed a b in
    let same = Serves-SameEndpoint run in
    let k = Serves-IsAdopted a i run b o h in
    let waits =
      loop-CanReceive t.heap t.bind a (same.same_bind ∙ b) (ap (λ f. f a) same.same_heap ∙ o) _ _
        k in
    (k, lift waits t t i none_yet (rw same.same_count l) refl refl refl)
