-- ===== src/Tests/Bindings.antt =====
-- Runs of the query loop against `Close`.
use unity_gaming_services_go.Prelude.{◌≡◌, ◌↔◌, refl, true, false, some}
use unity_gaming_services_go.Server.Binding.{
  System, read_checked, read_open, marked, check_done, close_done, init, Run, start, query, stop,
}
use unity_gaming_services_go.Server.Binding.Closing.{checked, CanCrash, closing-crashes_iff}

-- The loop has passed the check of `Read`; `Close` has closed `done`.
abbrev overtaken : System
overtaken = record {
  bind = record { conn = some false; done = true };
  reader = read_checked;
  closer = marked;
}

overtaken_run : Run init 1 overtaken
overtaken_run = stop (stop (query start (read_open refl)) (check_done refl)) close_done

closing-crashes_iff_example : CanCrash overtaken ↔ (checked read_checked ≡ true)
closing-crashes_iff_example = closing-crashes_iff overtaken overtaken_run refl (λ e. cc)
