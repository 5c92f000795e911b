-- ===== src/A2s/Decode.antt =====
-- A reader of A2S_INFO responses, written from the format and not from a2s.go.
use unity_gaming_services_go.Prelude.{
  ℕ, ◌%◌, ◌≡◌, refl, [], ◌∷◌, ◌++◌, Option, none, some, ok, Bytes, word16, ◌==◌, if◌then◌else◌,
  arith, append_assoc,
}
use unity_gaming_services_go.Proto.Wire.{QueryState, wire_write}
use unity_gaming_services_go.Proto.Wire.Format.{format, wire_write-format}
use unity_gaming_services_go.A2s.Parse.{NoNull}
use unity_gaming_services_go.A2s.Respond.{info_bytes, encoder-IsAppending}
use unity_gaming_services_go.A2s.{
  InfoWireFormat, info_fields, encoder, info_format, environment_from_runtime,
}

abbrev pub Reader : Type 0 → Type 0
Reader A = Bytes → Option (A × Bytes)

abbrev bind_step : {A B : Type 0} → Option (A × Bytes) → (A → Reader B) → Option (B × Bytes)
bind_step none f = none
bind_step (some (a, rest)) f = f a rest

infixl 5 ◌>>=◌
abbrev ◌>>=◌ : {A B : Type 0} → Reader A → (A → Reader B) → Reader B
◌>>=◌ m f input = bind_step (m input) f

read8 : Reader ℕ
read8 [] = none
read8 (a ∷ rest) = some (a, rest)

read16 : Reader ℕ
read16 (a ∷ b ∷ rest) = some (word16 b a, rest)
read16 _ = none

read_header : Reader Bytes
read_header (a ∷ b ∷ c ∷ d ∷ e ∷ rest) = some (a ∷ b ∷ c ∷ d ∷ e ∷ [], rest)
read_header _ = none

-- Up to the null byte, which is skipped.
abbrev put_front : ℕ → Option (Bytes × Bytes) → Option (Bytes × Bytes)
put_front b none = none
put_front b (some (s, rest)) = some (b ∷ s, rest)

read_text : Reader Bytes
read_text [] = none
read_text (b ∷ rest) =
    let more = put_front b (read_text rest) in if b == 0 then some ([], rest) else more

unfoldable pub decode : Reader InfoWireFormat
unfolding read8 read16 read_header read_text
decode = do
  header ← read_header
  protocol ← read8
  server_name ← read_text
  game_map ← read_text
  game_folder ← read_text
  game_name ← read_text
  steam_app_id ← read16
  player_count ← read8
  max_players ← read8
  num_bots ← read8
  server_type ← read8
  environment ← read8
  visibility ← read8
  vac_enabled ← read8
  version ← read_text
  λ rest. some (
    record {
      header = header;
      protocol = protocol;
      server_name = server_name;
      game_map = game_map;
      game_folder = game_folder;
      game_name = game_name;
      steam_app_id = steam_app_id;
      player_count = player_count;
      max_players = max_players;
      num_bots = num_bots;
      server_type = server_type;
      environment = environment;
      visibility = visibility;
      vac_enabled = vac_enabled;
      version = version;
    },
    rest,
  )

read_text-null : (s rest : Bytes) → NoNull s → read_text (s ++ 0 ∷ rest) ≡ some (s, rest)
unfolding read_text
read_text-null [] rest h = refl
read_text-null (b ∷ s) rest h = ground (arith, read_text-null s rest h.1)

mod_twice : (n : ℕ) → n % 256 % 256 ≡ n % 256
mod_twice n = omega arith

environment_fits : (os : Bytes) → environment_from_runtime os % 256 ≡ environment_from_runtime os
unfolding environment_from_runtime
environment_fits os = ground arith

-- The format, read back.
pub decode-info_bytes :
    (qs : QueryState) (os : Bytes)
    → NoNull qs.server_name
    → NoNull qs.game_map
    → NoNull qs.game_type
    → decode (info_bytes (info_format (some qs) os)) ≡ some (info_format (some qs) os, [])
unfolding info_bytes decode format info_format
decode-info_bytes qs os hn hm ht =
    rw (append_assoc qs.server_name, read_text-null qs.server_name _ hn)
      (rw (append_assoc qs.game_map, read_text-null qs.game_map _ hm)
        (rw (append_assoc qs.game_type, read_text-null qs.game_type _ ht)
          (rw (mod_twice qs.current_players, mod_twice qs.max_players, environment_fits os))))

-- If the name, the map and the game type hold no null byte, the info response is written without
-- an error and a reader written from the A2S format gets back all its fields, the player counts
-- modulo 256, with nothing left over.
pub info_fields-decode :
    (qs : QueryState) (os : Bytes)
    → NoNull qs.server_name
    → NoNull qs.game_map
    → NoNull qs.game_type
    → (out : Bytes) × (wire_write encoder [] (info_fields (info_format (some qs) os)) ≡ ok out)
      × (decode out ≡ some (info_format (some qs) os, []))
unfolding info_bytes
info_fields-decode qs os hn hm ht = (
  info_bytes (info_format (some qs) os),
  wire_write-format encoder-IsAppending (info_fields (info_format (some qs) os)) [],
  decode-info_bytes qs os hn hm ht,
)
