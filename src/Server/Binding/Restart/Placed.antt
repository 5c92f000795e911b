-- ===== src/Server/Binding/Restart/Placed.antt =====
-- Where the loops of `handleQuery` can stand.
use unity_gaming_services_go.Prelude.{
  sym, subst, ◌∙◌, ℕ, suc, ◌<◌, ◌≡◌, refl, Bool, not, ◌||◌, true, Option, none, some, arith,
  ℕ_discrete,
}
use unity_gaming_services_go.Server.Binding.{Binding, Reader, read}
use unity_gaming_services_go.Server.Binding.Restart.{
  Place, place, loads, within, LoopStep, load, load_nil, stay, leave, answered, refused, Endpoint,
  update, serve, begin_close, nothing_open, close, forget, bind_new, bind_fails, launch, begin_stop,
  close_stop, new_endpoint, Reach, here, by_loop, by_restart, by_stop,
}
use unity_gaming_services_go.Server.Binding.Restart.Handover.{
  update_self, update_other, run-IsHandover,
}

-- A loop has loaded the pointer before it is in a method, and keeps it until it is out.
abbrev pub stands : Option ℕ → Reader → Bool
stands none p = not (within p)
stands (some a) p = loads p || within p

-- What it has loaded is a binding made already.
pub record IsPlaced (next : ℕ) (p : Place) : Type 0 where
  pub made : (a : ℕ) → p.loaded ≡ some a → a < next
  pub standing : stands p.loaded p.at ≡ true

pub LoopStep-IsPlaced :
    {heap : ℕ → Binding} {bind : Option ℕ} {c d : Option ℕ} {p r : Reader} (next : ℕ)
    → LoopStep heap bind c p d r
    → ((a : ℕ) → bind ≡ some a → a < next)
    → IsPlaced next (place c p)
    → IsPlaced next (place d r)
LoopStep-IsPlaced n (load l b) k h = record { made = λ x e. k x (b ∙ e); standing = ground arith }
LoopStep-IsPlaced n (load_nil l b) k h = record { made = λ x e. absurd (cc); standing = refl }
LoopStep-IsPlaced n (stay m w) k h = record { made = h.made; standing = ground arith }
LoopStep-IsPlaced n (leave m w) k h = record { made = λ x e. absurd (cc); standing = ground arith }
LoopStep-IsPlaced n answered k h = record { made = λ x e. absurd (cc); standing = refl }
LoopStep-IsPlaced n refused k h = record { made = λ x e. absurd (cc); standing = refl }

pub update-IsPlaced :
    (n : ℕ) (loops : ℕ → Place) (i j : ℕ) (p : Place)
    → IsPlaced n p
    → IsPlaced n (loops i)
    → IsPlaced n (update loops j p i)
update-IsPlaced n loops i j p new old = elim (ℕ_discrete i j) [
  | yes e ↦
      subst (λ x. IsPlaced n (update loops j p x)) (sym e)
        (subst (IsPlaced n) (sym (update_self loops j p)) new)
  | no e ↦ subst (IsPlaced n) (sym (update_other loops j i p e)) old
]

later-IsPlaced : (n : ℕ) (p : Place) → IsPlaced n p → IsPlaced (suc n) p
later-IsPlaced n p h = record { made = λ a e. omega (arith, h.made a e); standing = h.standing }

pub run-IsPlaced : {t : Endpoint} (i : ℕ) → Reach new_endpoint t → IsPlaced t.next (t.loops i)
run-IsPlaced i here = record { made = λ a e. absurd (cc); standing = refl }
run-IsPlaced i (by_loop {t} r (serve {c} {r = p} j l m)) =
    update-IsPlaced t.next t.loops i j (place c p)
      (LoopStep-IsPlaced t.next m (run-IsHandover r).bound (run-IsPlaced j r)) (run-IsPlaced i r)
run-IsPlaced i (by_restart r (begin_close s b)) = run-IsPlaced i r
run-IsPlaced i (by_restart r (nothing_open s b)) = run-IsPlaced i r
run-IsPlaced i (by_restart r (close s m)) = run-IsPlaced i r
run-IsPlaced i (by_restart r (forget s)) = run-IsPlaced i r
run-IsPlaced i (by_restart {t} r (bind_new s)) =
    later-IsPlaced t.next (t.loops i) (run-IsPlaced i r)
run-IsPlaced i (by_restart r (bind_fails s)) = run-IsPlaced i r
run-IsPlaced i (by_restart {t} r (launch s)) =
    update-IsPlaced t.next t.loops i t.count (place none read)
      (record { made = λ a e. absurd (cc); standing = refl }) (run-IsPlaced i r)
run-IsPlaced i (by_stop r (begin_stop s b)) = run-IsPlaced i r
run-IsPlaced i (by_stop r (close_stop s m)) = run-IsPlaced i r
