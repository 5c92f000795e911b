-- ===== src/Server/Binding/Restart/Ending.antt =====
-- The loops of `handleQuery` once `Stop`, or a restart, has closed `done` of the binding in use.
use unity_gaming_services_go.Prelude.{
  ap, sym, subst, ◌∙◌, ℕ, suc, ◌+◌, ◌<◌, ◌≤◌, ◌≡◌, ◌≢◌, refl, ◌⊎◌, inl, inr, Bool-cases, true,
  Option, none, some, arith, ℕ_discrete,
}
use unity_gaming_services_go.Server.Binding.{Binding, Reader, read, responding, stopped, crashed}
use unity_gaming_services_go.Server.Binding.Closing.{Goes, Reader-Goes, CloseMove-done}
use unity_gaming_services_go.Server.Binding.Restart.{
  Place, place, within, LoopStep, load, stay, leave, refused, Endpoint, update, Stop, begin_stop,
  close_stop, new_endpoint, Reach,
}
use unity_gaming_services_go.Server.Binding.Restart.Left.{
  steps_left, steps_left-le, LoopStep-steps_left,
}
use unity_gaming_services_go.Server.Binding.Restart.Handover.{
  update_self, update_other, IsHandover, run-IsHandover,
}
use unity_gaming_services_go.Server.Binding.Restart.Placed.{
  stands, IsPlaced, LoopStep-IsPlaced, run-IsPlaced,
}

-- Runs without a restart, with the number of steps of loop `i`.
pub data Ends (i : ℕ) (e : Endpoint) : ℕ → Endpoint → Type 0 where
  at_first : Ends i e 0 e
  own :
      {n : ℕ} {t : Endpoint} {c : Option ℕ} {r : Reader}
      → Ends i e n t
      → LoopStep t.heap t.bind (t.loops i).loaded (t.loops i).at c r
      → Ends i e (suc n) (record t { loops = update t.loops i (place c r) })
  others :
      {n : ℕ} {t : Endpoint} {c : Option ℕ} {r : Reader} (j : ℕ)
      → Ends i e n t
      → i ≢ j
      → LoopStep t.heap t.bind (t.loops j).loaded (t.loops j).at c r
      → Ends i e n (record t { loops = update t.loops j (place c r) })
  stops : {n : ℕ} {t u : Endpoint} → Ends i e n t → Stop t u → Ends i e n u

-- The loop is over, or has a step.
abbrev pub LoopGoes : Endpoint → Place → Type 0
LoopGoes t p =
    (p.at ≡ stopped)
    ⊎ ((p.at ≡ crashed)
        ⊎ ((c : Option ℕ) × (r : Reader) × LoopStep t.heap t.bind p.loaded p.at c r))

-- Every binding is closed, the one in use too; and how far loop `i` is.
record Ended (a n i : ℕ) (t : Endpoint) (m : ℕ) : Type 0 where
  bind : t.bind ≡ some a
  in_use : a < t.next
  closed : (x : ℕ) → x < t.next → (t.heap x).done ≡ true
  placed : IsPlaced t.next (t.loops i)
  left : n + steps_left (t.loops i).loaded (t.loops i).at ≤ m

closed-close :
    (heap : ℕ → Binding) (n y : ℕ) (b : Binding)
    → ((x : ℕ) → x < n → (heap x).done ≡ true)
    → ((heap y).done ≡ true → b.done ≡ true)
    → (x : ℕ) → x < n
    → (update heap y b x).done ≡ true
closed-close heap n y b h k x l = elim (ℕ_discrete x y) [
  | yes e ↦
      subst (λ z. (update heap y b z).done ≡ true) (sym e)
        (ap (λ c. c.done) (update_self heap y b) ∙ k (subst (λ z. (heap z).done ≡ true) e (h x l)))
  | no e ↦ ap (λ c. c.done) (update_other heap y x b e) ∙ h x l
]

Ends-Ended :
    {a i : ℕ} {e : Endpoint} {n : ℕ} {t : Endpoint} (m : ℕ)
    → Ends i e n t
    → Ended a 0 i e m
    → Ended a n i t m
Ends-Ended m at_first h = h
Ends-Ended {a} {i} m (own {t} {c} {r} run s) h =
    let k = Ends-Ended m run h in
    let p =
      LoopStep-IsPlaced t.next s
        (λ x d.
          let f : a ≡ x = (let g = sym k.bind ∙ d in cc) in subst (λ z. z < t.next) f k.in_use)
        k.placed in
    let l =
      LoopStep-steps_left a s k.bind (λ x d. k.closed x (k.placed.made x d)) k.placed.standing in
    record {
      bind = k.bind;
      in_use = k.in_use;
      closed = k.closed;
      placed = rw (update_self t.loops i (place c r)) p;
      left = rw (update_self t.loops i (place c r)) (omega (arith, l, k.left));
    }
Ends-Ended {i} m (others {t} {c} {r} j run ne s) h =
    let k = Ends-Ended m run h in
    record {
      bind = k.bind;
      in_use = k.in_use;
      closed = k.closed;
      placed = rw (update_other t.loops j i (place c r) ne) k.placed;
      left = rw (update_other t.loops j i (place c r) ne) k.left;
    }
Ends-Ended m (stops run (begin_stop s b)) h =
    let k = Ends-Ended m run h in
    record { bind = k.bind; in_use = k.in_use; closed = k.closed; placed = k.placed; left = k.left }
Ends-Ended m (stops {t} run (close_stop {a = y} {b} s mv)) h =
    let k = Ends-Ended m run h in
    record {
      bind = k.bind;
      in_use = k.in_use;
      closed = closed-close t.heap t.next y b k.closed (CloseMove-done mv);
      placed = k.placed;
      left = k.left;
    }

in-LoopGoes :
    (t : Endpoint) (x : ℕ) (p : Reader) → Goes (t.heap x) p → LoopGoes t (place (some x) p)
in-LoopGoes t x p (inl e) = inl e
in-LoopGoes t x p (inr (inl e)) = inr (inl e)
in-LoopGoes t x p (inr (inr (r, m))) = elim (Bool-cases (within r)) [
  | inl w ↦ inr (inr (some x, r, stay m w))
  | inr w ↦ inr (inr (none, r, leave m w))
]

out-LoopGoes :
    (t : Endpoint) (a : ℕ) (p : Reader)
    → t.bind ≡ some a
    → stands none p ≡ true
    → LoopGoes t (place none p)
out-LoopGoes t a responding b s = inr (inr (none, read, refused))
out-LoopGoes t a stopped b s = inl refl
out-LoopGoes t a crashed b s = inr (inl refl)
out-LoopGoes t a p b s = inr (inr (some a, p, load (ground arith) b))

placed-LoopGoes :
    (t : Endpoint) (a : ℕ) (c : Option ℕ) (p : Reader)
    → t.bind ≡ some a
    → ((x : ℕ) → x < t.next → (t.heap x).done ≡ true)
    → IsPlaced t.next (place c p)
    → LoopGoes t (place c p)
placed-LoopGoes t a none p b k h = out-LoopGoes t a p b h.standing
placed-LoopGoes t a (some x) p b k h =
    in-LoopGoes t x p (Reader-Goes (t.heap x) (k x (h.made x refl)) (t.heap x).conn refl p)

all_closed :
    (e : Endpoint) (a : ℕ)
    → IsHandover e
    → e.bind ≡ some a
    → (e.heap a).done ≡ true
    → (x : ℕ) → x < e.next
    → (e.heap x).done ≡ true
all_closed e a h b d x l = elim (ℕ_discrete x a) [
  | yes same ↦ subst (λ z. (e.heap z).done ≡ true) (sym same) d
  | no other ↦ h.retired x l (λ g. other (let g' = sym b ∙ g in cc))
]

-- In a reachable state with the pointer of the server to a binding whose done is closed, by Stop
-- or by a restart that has not set it to nil yet: over any further steps of the loops of
-- handleQuery and of Stop, each loop, however many share the binding and whichever binding it
-- stands in, makes eight steps at most, and as long as it has neither returned nor panicked it
-- has a step.
pub loops_end :
    {e t : Endpoint} {n : ℕ} (a i : ℕ)
    → Reach new_endpoint e
    → e.bind ≡ some a
    → (e.heap a).done ≡ true
    → Ends i e n t
    → (n ≤ 8) × LoopGoes t (t.loops i)
loops_end {e} {t} {n} a i r b d run =
    let hand = run-IsHandover r in
    let start : Ended a 0 i e 8 = record {
      bind = b;
      in_use = hand.bound a b;
      closed = all_closed e a hand b d;
      placed = run-IsPlaced i r;
      left = omega (arith, steps_left-le (e.loops i).loaded (e.loops i).at);
    } in
    let k = Ends-Ended 8 run start in
    (
      omega (arith, k.left),
      placed-LoopGoes t a (t.loops i).loaded (t.loops i).at k.bind k.closed k.placed,
    )
