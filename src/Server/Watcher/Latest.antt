-- ===== src/Server/Watcher/Latest.antt =====
-- The configuration that a server has after the events of its file.
use unity_gaming_services_go.Prelude.{
  ℕ, ◌≡◌, refl, ◌∙◌, List, [], ◌∷◌, Bool-cases, inl, inr, codes, Option, none, some, Outcome, ok,
  err, panic, Bytes, bytes_eq, bit_and, ◌==◌, if◌then◌else◌,
}
use unity_gaming_services_go.Server.Settings.{
  Config, ConfigFiles, new_config_from_file, GoError, wrap,
}
use unity_gaming_services_go.Server.{Server, push_error, set_config, offer}
use unity_gaming_services_go.Server.Watcher.{
  WatchEvent, changed, failed, closed, finished, is_eof, reload, watch, watch_on,
  watch_for_config_changes,
}

-- The configurations that the events bring, in order, up to the end of the loop.
abbrev only : Outcome GoError Config → List Config → List Config
only (ok c) later = c ∷ later
only (err e) later = later
only panic later = []

abbrev pub configs : ℕ → Bytes → List WatchEvent → List Config
configs write path [] = []
configs write path (changed name op files ∷ evs) =
    let later = configs write path evs in
    if bytes_eq name path
    then (if bit_and op write == write then only (new_config_from_file files path) later else later)
    else later
configs write path (failed e ∷ evs) = configs write path evs
configs write path (closed ∷ evs) = []
configs write path (finished ∷ evs) = []

abbrev pub last_of : Config → List Config → Config
last_of c [] = c
last_of c (d ∷ ds) = last_of d ds

-- What a channel of one place keeps of what is offered to it while nobody reads.
abbrev pub first_of : Option Config → List Config → Option Config
first_of none [] = none
first_of none (d ∷ ds) = some d
first_of (some c) ds = some c

-- The server has the last of these configurations, and its channel the first.
abbrev pub Follows : Server → List Config → Server → Type 0
Follows s cs t =
    (t.current_config ≡ last_of s.current_config cs)
    × (t.chan_configuration_changed ≡ first_of s.chan_configuration_changed cs)

first-offer :
    (o : Option Config) (c : Config) (cs : List Config)
    → first_of (offer o c) cs ≡ first_of o (c ∷ cs)
first-offer none c cs = refl
first-offer (some d) c cs = refl

first_nil : (o : Option Config) → o ≡ first_of o []
first_nil none = refl
first_nil (some c) = refl

module _ (write : ℕ) (evs : List WatchEvent) where
  -- The rest of the loop does what it has to from any server.
  Rest : Type 0
  Rest =
      (t : Server)
      → Follows t (configs write t.cfg_file evs) (watch_for_config_changes write evs t).0

  reload-Follows :
      (s : Server) (r : Outcome GoError Config)
      → Rest
      → Follows s
          (only r (configs write s.cfg_file evs))
          (watch_on (reload s r) (λ t. watch_for_config_changes write evs t)).0
  unfolding Rest push_error set_config
  reload-Follows s (ok c) rest =
      let (h, k) = rest (set_config c s) in
      (h, k ∙ first-offer s.chan_configuration_changed c (configs write s.cfg_file evs))
  reload-Follows s (err e) rest = elim (Bool-cases (is_eof e)) [
    | inl truncated ↦ rw truncated (rest s)
    | inr invalid ↦
        rw invalid (rest (push_error (wrap (codes "error parsing new configuration") e) s))
  ]
  reload-Follows s panic rest = (refl, first_nil s.chan_configuration_changed)

  changed-Follows :
      (s : Server) (name : Bytes) (op : ℕ) (files : ConfigFiles)
      → Rest
      → Follows s
          (configs write s.cfg_file (changed name op files ∷ evs))
          (watch_on
            (watch write s (changed name op files))
            (λ t. watch_for_config_changes write evs t)).0
  unfolding Rest watch
  changed-Follows s name op files rest = elim (Bool-cases (bytes_eq name s.cfg_file)) [
    | inl ours ↦ elim (Bool-cases (bit_and op write == write)) [
      | inl written ↦
          rw (ours, written) (reload-Follows s (new_config_from_file files s.cfg_file) rest)
      | inr touched ↦ rw (ours, touched) (rest s)
    ]
    | inr others ↦ rw others (rest s)
  ]

-- After any events of the file watcher, up to the end of the loop or a panic of the decoding: the
-- server has the last configuration that a write to its own file brought and that could be read
-- (its old one if there was none), and the channel of configurations, while nobody reads it,
-- holds the first one (or what it held).
pub watch-Follows :
    (write : ℕ) (evs : List WatchEvent) (s : Server)
    → Follows s (configs write s.cfg_file evs) (watch_for_config_changes write evs s).0
unfolding watch_for_config_changes Rest push_error
watch-Follows write [] s = (refl, first_nil s.chan_configuration_changed)
watch-Follows write (changed name op files ∷ evs) s =
    changed-Follows write evs s name op files (λ t. watch-Follows write evs t)
watch-Follows write (failed e ∷ evs) s =
    watch-Follows write evs (push_error (wrap (codes "error watching config file") e) s)
watch-Follows write (closed ∷ evs) s = (refl, first_nil s.chan_configuration_changed)
watch-Follows write (finished ∷ evs) s = (refl, first_nil s.chan_configuration_changed)
