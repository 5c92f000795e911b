-- ===== src/Server/Binding/Restart/Left.antt =====
-- How many steps a loop of `handleQuery` has left once `done` of its binding is closed.
use unity_gaming_services_go.Prelude.{
  sym, ◌∙◌, ℕ, suc, ◌≤◌, ◌≡◌, refl, ◌||◌, true, false, Option, none, some, arith,
}
use unity_gaming_services_go.Server.Binding.{
  Binding, Reader, read, read_checked, read_timed, receiving, read_error, responding, write,
  write_checked, write_timed, sending, write_error, Move, read_open, retry_reading, write_open,
  retry_writing,
}
use unity_gaming_services_go.Server.Binding.Restart.{
  loads, within, LoopStep, load, load_nil, stay, leave, answered, refused,
}
use unity_gaming_services_go.Server.Binding.Restart.Placed.{stands}

-- The steps that are left at most, out of the methods and in them.
abbrev left_out : Reader → ℕ
left_out read = 4
left_out read_error = 2
left_out responding = 5
left_out write = 4
left_out write_error = 2
left_out p = 0

abbrev left_in : Reader → ℕ
left_in read = 3
left_in read_checked = 8
left_in read_timed = 7
left_in receiving = 6
left_in read_error = 1
left_in write = 3
left_in write_checked = 7
left_in write_timed = 6
left_in sending = 5
left_in write_error = 1
left_in p = 0

abbrev pub steps_left : Option ℕ → Reader → ℕ
steps_left none p = left_out p
steps_left (some a) p = left_in p

Move-stay :
    {b : Binding} {p r : Reader}
    → Move b p r
    → b.done ≡ true
    → within r ≡ true
    → suc (left_in r) ≤ left_in p
Move-stay (read_open d) e w = absurd (let d' = sym d ∙ e in cc)
Move-stay (write_open d) e w = absurd (let d' = sym d ∙ e in cc)
Move-stay m e w = ground arith

Move-leave :
    {b : Binding} {p r : Reader}
    → Move b p r
    → b.done ≡ true
    → within r ≡ false
    → (loads p || within p) ≡ true
    → suc (left_out r) ≤ left_in p
Move-leave (retry_reading d) e w s = absurd (let d' = sym d ∙ e in cc)
Move-leave (retry_writing d) e w s = absurd (let d' = sym d ∙ e in cc)
Move-leave m e w s = ground arith

load_step : (p : Reader) → loads p ≡ true → suc (left_in p) ≤ left_out p
load_step p l = ground arith

module _ {heap : ℕ → Binding} {bind : Option ℕ} where
  pub LoopStep-steps_left :
      {c d : Option ℕ} {p r : Reader} (a : ℕ)
      → LoopStep heap bind c p d r
      → bind ≡ some a
      → ((x : ℕ) → c ≡ some x → (heap x).done ≡ true)
      → stands c p ≡ true
      → suc (steps_left d r) ≤ steps_left c p
  LoopStep-steps_left {p} a (load l b) e k s = load_step p l
  LoopStep-steps_left a (load_nil l b) e k s = absurd (let b' = sym b ∙ e in cc)
  LoopStep-steps_left a (stay {a = x} m w) e k s = Move-stay m (k x refl) w
  LoopStep-steps_left a (leave {a = x} m w) e k s = Move-leave m (k x refl) w s
  LoopStep-steps_left a answered e k s = omega arith
  LoopStep-steps_left a refused e k s = omega arith

pub steps_left-le : (c : Option ℕ) (p : Reader) → steps_left c p ≤ 8
steps_left-le c p = ground arith
