-- ===== src/Server/Settings/Load.antt =====
-- What `newConfigFromFile` (config.go) makes of a file.
use unity_gaming_services_go.Prelude.{List, [], ◌∷◌, Bool, false, Bytes, bytes_eq, ◌||◌}

-- Whether a key is among some names.
abbrev pub is_one_of : Bytes → List Bytes → Bool
is_one_of j [] = false
is_one_of j (k ∷ ks) = bytes_eq k j || is_one_of j ks
