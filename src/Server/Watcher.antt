-- ===== src/Server/Watcher.antt =====
-- config_watcher.go: the loop that follows the configuration file. An event of the file watcher
-- carries the files as they are when it is handled.
pub mod Latest
use unity_gaming_services_go.Prelude.{
  ℕ, List, [], ◌∷◌, Bool, true, false, Outcome, ok, err, panic, Bytes, codes, bytes_eq, bit_and,
  ◌==◌, if◌then◌else◌,
}
use unity_gaming_services_go.Server.Settings.{
  Config, ConfigFiles, new_config_from_file, GoError, eof, wrap,
}
use unity_gaming_services_go.Server.{Server, push_error, set_config}

pub data WatchEvent : Type 0 where
  changed : Bytes → ℕ → ConfigFiles → WatchEvent
  failed : GoError → WatchEvent
  closed finished : WatchEvent

pub data Watching : Type 0 where
  watches ended broken : Watching

-- errors.Is(err, io.EOF)
abbrev pub is_eof : GoError → Bool
is_eof eof = true
is_eof (wrap text e) = is_eof e
is_eof _ = false

abbrev pub reload : Server → Outcome GoError Config → Server × Watching
reload s (ok c) = (set_config c s, watches)
reload s (err e) = (
  if is_eof e then s else push_error (wrap (codes "error parsing new configuration") e) s,
  watches,
)
reload s panic = (s, broken)

-- `write` is fsnotify.Write. Events of other files, and those without a write, are passed over.
unfoldable pub watch : ℕ → Server → WatchEvent → Server × Watching
unfolding push_error set_config
watch write s (changed name op files) =
    if bytes_eq name s.cfg_file
    then (if bit_and op write == write
        then reload s (new_config_from_file files s.cfg_file)
        else (s, watches))
    else (s, watches)
watch write s (failed e) = (push_error (wrap (codes "error watching config file") e) s, watches)
watch write s closed = (s, ended)
watch write s finished = (s, ended)

abbrev watch_on : Server × Watching → (Server → Server × Watching) → Server × Watching
watch_on (s, watches) k = k s
watch_on (s, ended) k = (s, ended)
watch_on (s, broken) k = (s, broken)

unfoldable pub watch_for_config_changes : ℕ → List WatchEvent → Server → Server × Watching
unfolding watch
watch_for_config_changes write [] s = (s, watches)
watch_for_config_changes write (ev ∷ evs) s =
    watch_on (watch write s ev) (λ t. watch_for_config_changes write evs t)
