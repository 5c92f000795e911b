-- ===== src/Server/Binding/Closing.antt =====
-- The loop of `handleQuery` once `done` is closed.
use unity_gaming_services_go.Prelude.{
  ℕ, suc, ◌+◌, ◌≤◌, ◌≡◌, ◌≢◌, ◌↔◌, ◌⊎◌, inl, inr, refl, sym, ◌∙◌, Bool, true, false, Option, none,
  some, arith, Bool-cases,
}
use unity_gaming_services_go.Server.Binding.{
  Binding, Reader, read, read_checked, read_timed, receiving, read_error, responding, write,
  write_checked, write_timed, sending, write_error, stopped, crashed, Move, read_done, read_open,
  set_read_deadline_fails, set_read_deadline_nil, read_from_udp, read_from_udp_nil, receive_fails,
  return_reading, retry_reading, refused, write_done, write_open, set_write_deadline_fails,
  set_write_deadline_nil, write_to, write_to_nil, send_fails, return_writing, retry_writing, Closer,
  outside, closing, marked, disconnected, returned, CloseMove, already_done, check_done, close_done,
  close_conn, forget_conn, System, init, Run, start, query, stop,
}
use unity_gaming_services_go.Server.Binding.Phases.{binding_at, IsPhased, run-IsPhased}

-- The moves that are left at most.
abbrev moves_left : Reader → ℕ
moves_left read = 2
moves_left read_checked = 6
moves_left read_timed = 5
moves_left receiving = 4
moves_left read_error = 1
moves_left responding = 3
moves_left write = 2
moves_left write_checked = 5
moves_left write_timed = 4
moves_left sending = 3
moves_left write_error = 1
moves_left stopped = 0
moves_left crashed = 0

Move-moves_left :
    {b : Binding} {p r : Reader} → Move b p r → b.done ≡ true → suc (moves_left r) ≤ moves_left p
Move-moves_left (read_open d) e = absurd (let d' = sym d ∙ e in cc)
Move-moves_left (retry_reading d) e = absurd (let d' = sym d ∙ e in cc)
Move-moves_left (write_open d) e = absurd (let d' = sym d ∙ e in cc)
Move-moves_left (retry_writing d) e = absurd (let d' = sym d ∙ e in cc)
Move-moves_left mv e = omega arith

pub CloseMove-done :
    {b b' : Binding} {p c : Closer} → CloseMove b p b' c → b.done ≡ true → b'.done ≡ true
CloseMove-done (already_done d) e = e
CloseMove-done (check_done d) e = e
CloseMove-done close_done e = refl
CloseMove-done (close_conn c) e = e
CloseMove-done forget_conn e = e

-- The loop is over, or has a move.
abbrev pub Goes : Binding → Reader → Type 0
Goes b p = (p ≡ stopped) ⊎ ((p ≡ crashed) ⊎ ((r : Reader) × Move b p r))

pub Reader-Goes :
    (b : Binding) → b.done ≡ true → (o : Option Bool) → b.conn ≡ o → (p : Reader) → Goes b p
Reader-Goes b d o e read = inr (inr (_, read_done d))
Reader-Goes b d none e read_checked = inr (inr (_, set_read_deadline_nil e))
Reader-Goes b d (some c) e read_checked = inr (inr (_, set_read_deadline_fails e))
Reader-Goes b d none e read_timed = inr (inr (_, read_from_udp_nil e))
Reader-Goes b d (some c) e read_timed = inr (inr (_, read_from_udp e))
Reader-Goes b d o e receiving = inr (inr (_, receive_fails))
Reader-Goes b d o e read_error = inr (inr (_, return_reading d))
Reader-Goes b d o e responding = inr (inr (_, refused))
Reader-Goes b d o e write = inr (inr (_, write_done d))
Reader-Goes b d none e write_checked = inr (inr (_, set_write_deadline_nil e))
Reader-Goes b d (some c) e write_checked = inr (inr (_, set_write_deadline_fails e))
Reader-Goes b d none e write_timed = inr (inr (_, write_to_nil e))
Reader-Goes b d (some c) e write_timed = inr (inr (_, write_to e))
Reader-Goes b d o e sending = inr (inr (_, send_fails))
Reader-Goes b d o e write_error = inr (inr (_, return_writing d))
Reader-Goes b d o e stopped = inl refl
Reader-Goes b d o e crashed = inr (inl refl)

run-done :
    {s : System} {n : ℕ} {t : System}
    → Run s n t
    → s.bind.done ≡ true
    → (t.bind.done ≡ true) × (n + moves_left t.reader ≤ moves_left s.reader)
run-done start d = (d, omega arith)
run-done (query r mv) d = let h = run-done r d in (h.0, omega (arith, h.1, Move-moves_left mv h.0))
run-done (stop r mv) d = let h = run-done r d in (CloseMove-done mv h.0, h.1)

moves_left-le : (p : Reader) → moves_left p ≤ 6
moves_left-le p = ground arith

-- Once done is closed, wherever the loop of handleQuery stands: it makes six moves at most,
-- however Close interleaves, and as long as it has neither returned nor panicked it has a move.
pub closed_loop_ends :
    {n : ℕ} (s : System) {t : System}
    → s.bind.done ≡ true
    → Run s n t
    → (n ≤ 6) × Goes t.bind t.reader
closed_loop_ends s {t} d r =
    let h = run-done r d in
    (omega (arith, h.1, moves_left-le s.reader), Reader-Goes t.bind h.0 t.bind.conn refl t.reader)

-- Behind a check of `done`, before the last use of the connection.
abbrev pub checked : Reader → Bool
checked read_checked = true
checked read_timed = true
checked write_checked = true
checked write_timed = true
checked p = false

-- A run to a panic of the loop.
abbrev pub CanCrash : System → Type 0
CanCrash s = (n : ℕ) × (t : System) × Run s n t × (t.reader ≡ crashed)

Move-checked :
    {b : Binding} {p r : Reader}
    → Move b p r
    → b.done ≡ true
    → p ≢ crashed
    → checked p ≡ false
    → (r ≢ crashed) × (checked r ≡ false)
Move-checked (read_open d) e h k = absurd (let d' = sym d ∙ e in cc)
Move-checked (write_open d) e h k = absurd (let d' = sym d ∙ e in cc)
Move-checked mv e h k = ground arith

run-checked :
    {s : System} {n : ℕ} {t : System}
    → Run s n t
    → s.bind.done ≡ true
    → s.reader ≢ crashed
    → checked s.reader ≡ false
    → (t.reader ≢ crashed) × (checked t.reader ≡ false)
run-checked start d h k = (h, k)
run-checked (query r mv) d h k =
    let i = run-checked r d h k in Move-checked mv (run-done r d).0 i.0 i.1
run-checked (stop r mv) d h k = run-checked r d h k

-- Alone, `Close` goes on to forget the connection.
forgets :
    (b : Binding) (p : Reader) (c : Closer)
    → b ≡ binding_at c
    → b.done ≡ true
    → (t : System) × Run (record { bind = b; reader = p; closer = c }) 0 t
      × (t.reader ≡ p)
      × (t.bind.conn ≡ none)
forgets b p outside e d = absurd (let d' = rw e at d in cc)
forgets b p closing e d = absurd (let d' = rw e at d in cc)
forgets b p marked e d =
    (_, stop (stop start (close_conn {c = false} (rw e))) forget_conn, refl, refl)
forgets b p disconnected e d = (_, stop start forget_conn, refl, refl)
forgets b p returned e d = (_, start, refl, rw e)

crash_move : (b : Binding) (p : Reader) → b.conn ≡ none → checked p ≡ true → Move b p crashed
crash_move b read_checked e h = set_read_deadline_nil e
crash_move b read_timed e h = read_from_udp_nil e
crash_move b write_checked e h = set_write_deadline_nil e
crash_move b write_timed e h = write_to_nil e
crash_move b p e h = absurd (ground arith)

crashes_checked :
    (s : System) → IsPhased s → s.bind.done ≡ true → checked s.reader ≡ true → CanCrash s
crashes_checked s h d k =
    let f = forgets s.bind s.reader s.closer h.phase d in
    let u = f.0 in (_, _, query f.1 (crash_move u.bind u.reader f.3 (rw f.2 k)), refl)

-- In a state reachable from a new binding, with done closed and the loop of handleQuery not
-- panicked: the loop can still panic exactly if it stands between a check of done, in Read or in
-- Write, and the last use of the connection there.
pub closing-crashes_iff :
    {n : ℕ} (s : System)
    → Run init n s
    → s.bind.done ≡ true
    → s.reader ≢ crashed
    → CanCrash s ↔ (checked s.reader ≡ true)
closing-crashes_iff s r d h = (
  λ c. elim (Bool-cases (checked s.reader)) [
    | inl e ↦ e
    | inr e ↦ absurd ((run-checked c.2 d h e).0 c.3)
  ],
  crashes_checked s (run-IsPhased r) d,
)
