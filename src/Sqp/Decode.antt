-- ===== src/Sqp/Decode.antt =====
-- A reader of SQP query responses, written from the format and not from sqp.go.
pub mod RoundTrip
use unity_gaming_services_go.Prelude.{
  ℕ, zero, suc, ◌+◌, ◌%◌, ◌^◌, sym, append-nil, ◌≤◌, ◌<◌, ◌≡◌, refl, ap, ◌∙◌, Bool, true, false,
  List, [], ◌∷◌, ◌++◌, Option, none, some, Bytes, word16, word32, word16-be16, word32-be32,
  if◌then◌else◌, leb, ◌&&◌, length, take, drop, arith, elems, All, append_assoc, length-append,
  length-take, take-append, drop-append,
}
use native.Mathlib.Nat.{mod-eq_of_lt}
use unity_gaming_services_go.Proto.Wire.{QueryState, big_endian, float32s_bytes}
use unity_gaming_services_go.Sqp.Info.{max_metrics, ServerInfo, query_state_to_server_info}
use unity_gaming_services_go.Sqp.Sizes.{
  text, info_content, metrics_content, chunk, reported_metrics, length-info_content,
  length-float32s,
}
use unity_gaming_services_go.Sqp.{wants_server_info, wants_metrics}
use unity_gaming_services_go.Sqp.Layout.{body, response}

-- A reader takes a prefix of the input and returns what it read with the rest.
abbrev pub Reader : Type 0 → Type 0
Reader A = Bytes → Option (A × Bytes)

abbrev bind_step : {A B : Type 0} → Option (A × Bytes) → (A → Reader B) → Option (B × Bytes)
bind_step none f = none
bind_step (some (a, rest)) f = f a rest

infixl 5 ◌>>=◌
abbrev ◌>>=◌ : {A B : Type 0} → Reader A → (A → Reader B) → Reader B
◌>>=◌ m f input = bind_step (m input) f

abbrev return : {A : Type 0} → A → Reader A
return a input = some (a, input)

read8 : Reader ℕ
read8 [] = none
read8 (a ∷ rest) = some (a, rest)

read16 : Reader ℕ
read16 (a ∷ b ∷ rest) = some (word16 a b, rest)
read16 _ = none

read32 : Reader ℕ
read32 (a ∷ b ∷ c ∷ d ∷ rest) = some (word32 a b c d, rest)
read32 _ = none

read_bytes : ℕ → Reader Bytes
read_bytes n input = if leb n (length input) then some (take n input, drop n input) else none

unfoldable pub read_text : Reader Bytes
unfolding read8 read_bytes
read_text = do n ← read8; read_bytes n

read_floats : ℕ → Reader (List ℕ)
read_floats zero = return []
read_floats (suc n) = do x ← read32; xs ← read_floats n; return (x ∷ xs)

read_info : Reader ServerInfo
unfolding read8 read16
read_info = do
  current ← read16
  maximum ← read16
  name ← read_text
  type ← read_text
  build ← read_text
  game_map ← read_text
  port ← read16
  return (record {
    current_players = current;
    max_players = maximum;
    server_name = name;
    game_type = type;
    build_id = build;
    game_map = game_map;
    port = port;
  })

read_metrics : Reader (List ℕ)
read_metrics = do n ← read8; read_floats n

-- A chunk is read only if it was asked for.
read_chunk : {A : Type 0} → Bool → Reader A → Reader (Option A)
read_chunk true m = do n ← read32; a ← m; return (some a)
read_chunk false m = return none

pub record Reply : Type 0 where
  pub challenge : ℕ
  pub announced : ℕ
  pub info : Option ServerInfo
  pub metrics : Option (List ℕ)

-- `decode info metrics` reads a response to a query that asked for these chunks.
unfoldable pub decode : Bool → Bool → Reader Reply
unfolding read8 read16 read32 read_chunk read_info read_metrics read_bytes read_floats
decode info metrics = do
  type ← read8
  challenge ← read32
  version ← read16
  current ← read8
  last ← read8
  announced ← read16
  i ← read_chunk info read_info
  m ← read_chunk metrics read_metrics
  return (record { challenge = challenge; announced = announced; info = i; metrics = m })
