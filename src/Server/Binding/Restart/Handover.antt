-- ===== src/Server/Binding/Restart/Handover.antt =====
-- Which bindings are open at each point of `restartQueryEndpoint`.
use unity_gaming_services_go.Prelude.{
  ap, sym, subst, ◌∙◌, ℕ, ◌<◌, ◌≡◌, ◌≢◌, refl, ℕ_discrete, true, Option, none, some, arith,
}
use unity_gaming_services_go.Server.Binding.{Binding}
use unity_gaming_services_go.Server.Binding.Phases.{binding_at, CloseMove-phase}
use unity_gaming_services_go.Server.Binding.Restart.{
  Restarter, idle, closing, opening, launching, Endpoint, update, open_binding, serve, Restart,
  begin_close, nothing_open, close, forget, bind_new, bind_fails, launch, new_endpoint, Reach, here,
  by_loop, by_restart, by_stop, Stop, begin_stop, close_stop, stopping,
}

pub update_self : {A : Type 0} (f : ℕ → A) (i : ℕ) (x : A) → update f i x i ≡ x
unfolding update
update_self f i x = ground arith

pub update_other : {A : Type 0} (f : ℕ → A) (i j : ℕ) (x : A) → j ≢ i → update f i x j ≡ f j
unfolding update
update_other f i j x h = ground arith

-- What the pointer refers to at each point of a restart.
abbrev pub Pointed : Restarter → Option ℕ → (ℕ → Binding) → Type 0
Pointed idle bind heap = (a : ℕ) → bind ≡ some a → heap a ≡ open_binding
Pointed (closing a c) bind heap = (bind ≡ some a) × (heap a ≡ binding_at c)
Pointed opening bind heap = bind ≡ none
Pointed (stopping a c) bind heap = (bind ≡ some a) × (heap a ≡ binding_at c)
Pointed launching bind heap = (a : ℕ) → bind ≡ some a → heap a ≡ open_binding

-- The pointer is to a binding made already, every other binding is closed, and the one it is to is
-- open but for what `Close` has done to it.
pub record IsHandover (e : Endpoint) : Type 0 where
  pub bound : (a : ℕ) → e.bind ≡ some a → a < e.next
  pub retired : (a : ℕ) → a < e.next → e.bind ≢ some a → (e.heap a).done ≡ true
  pub pointed : Pointed e.restarter e.bind e.heap

Restart-IsHandover : {e t : Endpoint} → IsHandover e → Restart e t → IsHandover t
Restart-IsHandover {e} h (begin_close {a} r b) = record {
  bound = h.bound;
  retired = h.retired;
  pointed = (b, subst (λ x. Pointed x e.bind e.heap) r h.pointed a b);
}
Restart-IsHandover {e} h (nothing_open r b) = record {
  bound = h.bound;
  retired = h.retired;
  pointed = b;
}
Restart-IsHandover {e} h (close {a} {b} {p} {c} r m) =
    let k = subst (λ x. Pointed x e.bind e.heap) r h.pointed in
    record {
      bound = h.bound;
      retired = λ x l n.
          ap (λ y. y.done) (update_other e.heap a x b (λ d. n (k.0 ∙ (rw d refl))))
          ∙ h.retired x l n;
      pointed = (k.0, update_self e.heap a b ∙ (CloseMove-phase m k.1).0);
    }
Restart-IsHandover {e} h (forget {a} r) =
    let k = subst (λ x. Pointed x e.bind e.heap) r h.pointed in
    record {
      bound = λ x d. absurd (cc);
      retired = λ x l n. elim (ℕ_discrete x a) [
        | yes d ↦ ap (λ y. (e.heap y).done) d ∙ ap (λ y. y.done) k.1
        | no d ↦ h.retired x l (λ g. d (let g' = sym k.0 ∙ g in cc))
      ];
      pointed = refl;
    }
Restart-IsHandover {e} h (bind_new r) =
    let r' = subst (λ x. Pointed x e.bind e.heap) r h.pointed in
    record {
      bound = λ x d. (let d' : e.next ≡ x = cc in omega (arith, d'));
      retired = λ x l n.
          let ne : x ≢ e.next = λ d. n (rw d refl) in
          ap (λ y. y.done) (update_other e.heap e.next x open_binding ne)
          ∙ h.retired x (omega (arith, l, ne)) (λ d. let d' = sym r' ∙ d in absurd (cc));
      pointed = λ x d.
          let d' : e.next ≡ x = cc in
          subst (λ y. update e.heap e.next open_binding y ≡ open_binding) d'
            (update_self e.heap e.next open_binding);
    }
Restart-IsHandover {e} h (bind_fails r) =
    let k = subst (λ x. Pointed x e.bind e.heap) r h.pointed in
    record {
      bound = λ x d. absurd (cc);
      retired = λ x l n. h.retired x l (λ d. absurd (cc));
      pointed = λ x d. absurd (cc);
    }
Restart-IsHandover {e} h (launch r) =
    let k = subst (λ x. Pointed x e.bind e.heap) r h.pointed in
    record { bound = h.bound; retired = h.retired; pointed = k }

pub Stop-IsHandover : {e t : Endpoint} → IsHandover e → Stop e t → IsHandover t
Stop-IsHandover {e} h (begin_stop {a} r b) = record {
  bound = h.bound;
  retired = h.retired;
  pointed = (b, subst (λ x. Pointed x e.bind e.heap) r h.pointed a b);
}
Stop-IsHandover {e} h (close_stop {a} {b} r m) =
    let k = subst (λ x. Pointed x e.bind e.heap) r h.pointed in
    record {
      bound = h.bound;
      retired = λ x l n.
          ap (λ y. y.done) (update_other e.heap a x b (λ d. n (k.0 ∙ (rw d refl))))
          ∙ h.retired x l n;
      pointed = (k.0, update_self e.heap a b ∙ (CloseMove-phase m k.1).0);
    }

-- In every state reachable by restarts of the endpoint, one after another, by Stop and by the
-- loops of handleQuery, at whatever points they interleave: the pointer of the server is nil or
-- to a binding made already; every other binding is closed; and the one it is to is open, but for
-- what Close has done to it so far.
pub run-IsHandover : {t : Endpoint} → Reach new_endpoint t → IsHandover t
run-IsHandover here = record {
  bound = λ a e. absurd (cc);
  retired = λ a l n. absurd (omega (arith, l));
  pointed = λ a e. absurd (cc);
}
run-IsHandover (by_loop r (serve i l m)) =
    let h = run-IsHandover r in record { bound = h.bound; retired = h.retired; pointed = h.pointed }
run-IsHandover (by_restart r m) = Restart-IsHandover (run-IsHandover r) m
run-IsHandover (by_stop r m) = Stop-IsHandover (run-IsHandover r) m
