-- ===== src/Server/Binding/Restart/Receiving.antt =====
-- Loops of `handleQuery` that serve an open binding, and how they come to wait for a datagram on it.
use unity_gaming_services_go.Prelude.{
  ap, sym, subst, ◌∙◌, ℕ, ◌<◌, ◌==◌, ◌≡◌, refl, Bool, true, false, ◌&&◌, ◌||◌, Option, none, some,
  arith,
}
use unity_gaming_services_go.Server.Binding.{
  Binding, Reader, read, read_checked, read_timed, receiving, read_error, responding, write,
  write_checked, write_timed, sending, write_error, Move, read_open, set_read_deadline,
  set_read_deadline_nil, read_from_udp, read_from_udp_nil, return_reading, retry_reading,
  write_open, set_write_deadline, set_write_deadline_nil, write_to, write_to_nil, send_fails,
  return_writing, retry_writing,
}
use unity_gaming_services_go.Server.Binding.Restart.{
  place, loads, within, LoopStep, load, load_nil, stay, leave, answered, refused, Endpoint, update,
  open_binding, serve, Serves, then_serve,
}
use unity_gaming_services_go.Server.Binding.Restart.Handover.{update_self}

abbrev answering : Reader → Bool
answering responding = true
answering p = false

-- A loop that has neither returned nor panicked, and is in no method of a binding other than `a`.
abbrev pub serves : ℕ → Option ℕ → Reader → Bool
serves a none p = loads p || answering p
serves a (some b) p = (b == a) && (loads p || within p)

-- On an open binding, no method of it and no check of `done` ends the loop.
open-Move :
    {b : Binding} {p r : Reader}
    → Move b p r
    → b ≡ open_binding
    → within r ≡ false
    → (loads r || answering r) ≡ true
open-Move (set_read_deadline_nil c) e w = absurd (let c' = sym (ap (λ y. y.conn) e) ∙ c in cc)
open-Move (read_from_udp_nil c) e w = absurd (let c' = sym (ap (λ y. y.conn) e) ∙ c in cc)
open-Move (return_reading d) e w = absurd (let d' = sym (ap (λ y. y.done) e) ∙ d in cc)
open-Move (set_write_deadline_nil c) e w = absurd (let c' = sym (ap (λ y. y.conn) e) ∙ c in cc)
open-Move (write_to_nil c) e w = absurd (let c' = sym (ap (λ y. y.conn) e) ∙ c in cc)
open-Move (return_writing d) e w = absurd (let d' = sym (ap (λ y. y.done) e) ∙ d in cc)
open-Move mv e w = ground arith

pub LoopStep-serves :
    {heap : ℕ → Binding} {bind : Option ℕ} {c d : Option ℕ} {p r : Reader} (a : ℕ)
    → LoopStep heap bind c p d r
    → bind ≡ some a
    → heap a ≡ open_binding
    → serves a c p ≡ true
    → serves a d r ≡ true
LoopStep-serves a (load {a = x} l b) e o h = let f : x ≡ a = cc in ground arith
LoopStep-serves a (load_nil l b) e o h = absurd (let b' = sym b ∙ e in cc)
LoopStep-serves a (stay m w) e o h = ground arith
LoopStep-serves {heap} a (leave {a = x} m w) e o h =
    let f : x ≡ a = ground arith in open-Move m (ap heap f ∙ o) w
LoopStep-serves a answered e o h = refl
LoopStep-serves a refused e o h = refl

-- Steps of one loop, while nothing restarts the endpoint.
pub data LoopRun (heap : ℕ → Binding) (bind : Option ℕ)
    : Option ℕ → Reader → Option ℕ → Reader → Type 0 where
  over : {c : Option ℕ} {p : Reader} → LoopRun heap bind c p c p
  first :
      {c d d' : Option ℕ} {p q r : Reader}
      → LoopStep heap bind c p d q
      → LoopRun heap bind d q d' r
      → LoopRun heap bind c p d' r

-- The same steps within the endpoint.
pub lift :
    {heap : ℕ → Binding} {bind : Option ℕ} {c d : Option ℕ} {p r : Reader}
    → LoopRun heap bind c p d r
    → (e t : Endpoint) (i : ℕ) → Serves e t
    → i < t.count
    → t.heap ≡ heap
    → t.bind ≡ bind
    → t.loops i ≡ place c p
    → (u : Endpoint) × Serves e u × (u.loops i ≡ place d r)
lift over e t i run l h b at = (t, run, at)
lift (first {d} {q} m rest) e t i run l h b at =
    let m' : LoopStep t.heap t.bind (t.loops i).loaded (t.loops i).at d q = rw (h, b, at) m in
    lift rest e (record t { loops = update t.loops i (place d q) }) i
      (then_serve run (serve i l m')) l h b (update_self t.loops i (place d q))

module _ (heap : ℕ → Binding) (bind : Option ℕ) (a : ℕ) (e : bind ≡ some a)
    (o : heap a ≡ open_binding) where
  is_open : (heap a).done ≡ false
  is_open = ap (λ b. b.done) o

  connected : (heap a).conn ≡ some false
  connected = ap (λ b. b.conn) o

  abbrev pub CanReceive : Option ℕ → Reader → Type 0
  CanReceive c p = LoopRun heap bind c p (some a) receiving

  from_timed : CanReceive (some a) read_timed
  from_timed = first (stay (read_from_udp connected) refl) over

  from_checked : CanReceive (some a) read_checked
  from_checked = first (stay (set_read_deadline connected) refl) from_timed

  from_loaded : CanReceive (some a) read
  from_loaded = first (stay (read_open is_open) refl) from_checked

  from_read : CanReceive none read
  from_read = first (load refl e) from_loaded

  from_read_error : CanReceive (some a) read_error
  from_read_error = first (leave (retry_reading is_open) refl) from_read

  from_write_error : CanReceive (some a) write_error
  from_write_error = first (leave (retry_writing is_open) refl) from_read

  from_sending : CanReceive (some a) sending
  from_sending = first (leave send_fails refl) (first (load refl e) from_write_error)

  from_write_timed : CanReceive (some a) write_timed
  from_write_timed = first (stay (write_to connected) refl) from_sending

  from_write_checked : CanReceive (some a) write_checked
  from_write_checked = first (stay (set_write_deadline connected) refl) from_write_timed

  from_write : CanReceive (some a) write
  from_write = first (stay (write_open is_open) refl) from_write_checked

  -- From each of its points.
  pub loop-CanReceive : (c : Option ℕ) (p : Reader) → serves a c p ≡ true → CanReceive c p
  loop-CanReceive none read h = from_read
  loop-CanReceive none read_error h = first (load refl e) from_read_error
  loop-CanReceive none responding h = first refused from_read
  loop-CanReceive none write h = first (load refl e) from_write
  loop-CanReceive none write_error h = first (load refl e) from_write_error
  loop-CanReceive none p h = absurd (ground arith)
  loop-CanReceive (some b) p h =
      let f : a ≡ b = ground arith in
      subst (λ x. CanReceive (some x) p) f (loaded-CanReceive p (ground arith))
    where
      loaded-CanReceive : (p : Reader) → (loads p || within p) ≡ true → CanReceive (some a) p
      loaded-CanReceive read h = from_loaded
      loaded-CanReceive read_checked h = from_checked
      loaded-CanReceive read_timed h = from_timed
      loaded-CanReceive receiving h = over
      loaded-CanReceive read_error h = from_read_error
      loaded-CanReceive write h = from_write
      loaded-CanReceive write_checked h = from_write_checked
      loaded-CanReceive write_timed h = from_write_timed
      loaded-CanReceive sending h = from_sending
      loaded-CanReceive write_error h = from_write_error
      loaded-CanReceive p h = absurd (ground arith)
