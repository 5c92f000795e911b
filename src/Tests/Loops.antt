-- ===== src/Tests/Loops.antt =====
-- Runs of the query loop with its data, and of the endpoint when it is restarted.
use unity_gaming_services_go.Prelude.{
  ◌≤◌, ◌≡◌, ◌↔◌, refl, [], Bool, true, false, Option, none, some, codes, arith, ℕ,
}
use unity_gaming_services_go.Server.Settings.{external}
use unity_gaming_services_go.Server.Queries.{stopped, turn}
use unity_gaming_services_go.Server.Binding as B
use unity_gaming_services_go.Server.Binding.{
  read, read_checked, read_timed, receiving, read_error, marked, returned, check_done, close_done,
  close_conn, forget_conn,
}
use unity_gaming_services_go.Server.Binding.Loop as L
use unity_gaming_services_go.Server.Binding.Loop.{Loop, loop, Runs, begin, step}
use unity_gaming_services_go.Server.Binding.Loop.Matches.{closes_bind, Gives}
use unity_gaming_services_go.Server.Binding.Loop.Rounds.{Comes, rounds_iff}
use unity_gaming_services_go.Server.Binding.Restart.{
  Endpoint, new_endpoint, Place, place, update, Reach, here, by_loop, by_restart, Serves, none_yet,
  then_serve, serve, load, stay, leave, idle, closing, nothing_open, bind_new, launch, begin_close,
  close,
}
use unity_gaming_services_go.Server.Binding.Restart.Adoption.{IsAdopted, old_loop_serves}
use unity_gaming_services_go.Server.Binding.Restart.Handover.{IsHandover, run-IsHandover}
use unity_gaming_services_go.Server.Binding.Restart.Ending.{
  Ends, at_first, own, LoopGoes, loops_end,
}
use unity_gaming_services_go.Server.Binding.Restart.Outcomes.{
  CanReturn, CanPanic, CanStay, restarted_loop_can,
}
use unity_gaming_services_go.Tests.{serving}
use unity_gaming_services_go.Tests.Servers.{linux}

-- `Close` comes between the check of `Read` and its deadline.
abbrev overtaken_loop : Loop
overtaken_loop = record (loop serving) {
  bind = record { conn = some false; done = true };
  closer = marked;
  work = L.returned;
}

overtaken_loop_run : Runs linux (loop serving) overtaken_loop
overtaken_loop_run =
    step
      (step (L.close (L.close (step begin (L.read_open refl)) (check_done refl)) close_done)
        (L.set_read_deadline_fails {c = false} (external (codes "closed")) refl))
      (L.return_reading refl)

-- The rounds return there too.
rounds_iff_example :
    Gives linux serving (turn (closes_bind serving) [] stopped)
    ↔ Comes linux serving (turn (closes_bind serving) [] stopped)
rounds_iff_example = rounds_iff linux serving (turn (closes_bind serving) [] stopped) refl (λ e. cc)

-- The endpoint behind the first start.
abbrev started : Endpoint
started = record {
  heap = update new_endpoint.heap 0 (record { conn = some false; done = false });
  next = 1;
  bind = some 0;
  loops = update new_endpoint.loops 0 (place none read);
  count = 1;
  restarter = idle;
}

started_run : Reach new_endpoint started
started_run =
    by_restart (by_restart (by_restart here (nothing_open refl refl)) (bind_new refl)) (launch refl)

-- Its loop waits for a datagram.
abbrev moved : (ℕ → Place) → B.Reader → ℕ → Place
moved loops r = update loops 0 (place (some 0) r)

abbrev awaiting : Endpoint
awaiting = record started {
  loops = moved (moved (moved (moved started.loops read) read_checked) read_timed) receiving;
}

abbrev loaded : Endpoint
loaded = record started { loops = moved started.loops read }

loaded_run : Serves started loaded
unfolding update
loaded_run = then_serve none_yet (serve 0 (omega arith) (load refl refl))

awaiting_run : Reach new_endpoint awaiting
unfolding update
awaiting_run =
    by_loop
      (by_loop
        (by_loop (by_loop started_run (serve 0 (omega arith) (load refl refl)))
          (serve 0 (omega arith) (stay (B.read_open refl) refl)))
        (serve 0 (omega arith) (stay (B.set_read_deadline refl) refl)))
      (serve 0 (omega arith) (stay (B.read_from_udp {c = false} refl) refl))

-- `Close` of its binding has returned.
abbrev closes : (ℕ → B.Binding) → Option Bool → Bool → ℕ → B.Binding
closes heap conn done = update heap 0 (record { conn = conn; done = done })

abbrev restarting : Endpoint
restarting = record awaiting {
  heap =
      closes
        (closes (closes (closes awaiting.heap (some false) false) (some false) true) (some true)
          true)
        none true;
  restarter = closing 0 returned;
}

restarting_run : Reach new_endpoint restarting
unfolding update
restarting_run =
    by_restart
      (by_restart
        (by_restart
          (by_restart (by_restart awaiting_run (begin_close refl refl))
            (close refl (check_done refl)))
          (close refl close_done))
        (close refl (close_conn {c = false} refl)))
      (close refl forget_conn)

run-IsHandover_example : IsHandover restarting
run-IsHandover_example = run-IsHandover restarting_run

old_loop_serves_example :
    IsAdopted 0 loaded.loops 0
    × ((u : Endpoint) × Serves loaded u × (u.loops 0 ≡ place (some 0) receiving))
unfolding update
old_loop_serves_example = old_loop_serves 0 0 started_run refl refl (omega arith) refl loaded_run

restarted_loop_can_example : CanReturn restarting 0 × CanPanic restarting 0 × CanStay restarting 0
unfolding update
restarted_loop_can_example =
    restarted_loop_can restarting 0 0 restarting_run refl (omega arith) refl

-- The read fails, since the binding is closed.
abbrev failed : Endpoint
failed = record restarting { loops = update restarting.loops 0 (place none read_error) }

failed_run : Ends 0 restarting 1 failed
unfolding update
failed_run = own at_first (leave B.receive_fails refl)

loops_end_example : (1 ≤ 8) × LoopGoes failed (failed.loops 0)
unfolding update
loops_end_example = loops_end 0 0 restarting_run refl refl failed_run
