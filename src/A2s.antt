-- ===== src/A2s.antt =====
-- game-server-hosting/server/proto/a2s: the responder of the A2S protocol (a2s.go, encoder.go).
pub mod Scan
pub mod Parse
pub mod Respond
pub mod Decode
pub mod Faults
use unity_gaming_services_go.Prelude.{
  ℕ, zero, suc, ◌+◌, ◌-◌, ◌%◌, Bool, List, [], ◌∷◌, ◌++◌, Option, none, some, Outcome, ok, err,
  panic, ◌>>=◌ as bind, Bytes, codes, word32, length, get_or, take, drop, subslice, ltb, leb, ◌==◌,
  if◌then◌else◌, bytes_eq, not,
}
use unity_gaming_services_go.Proto.Challenge.{
  QueryBase, no_challenges, QueryError, not_an_info_request, unexpected_eof,
  unsupported_query_header, Readings,
}
use unity_gaming_services_go.Proto.Wire.{
  QueryState, Scalar, uint8, int16, uint32, bytes, Fields, end, field, string, scalar, WireEncoder,
  little_endian, binary_write, wire_write,
}
use unity_gaming_services_go.Proto.Responder.{Query, ◌>>=◌, ◌>>◌, lift, generate, check}

-- A text is written with a null byte behind it.
abbrev pub write_string : Bytes → Bytes → Outcome QueryError Bytes
write_string resp s = binary_write little_endian resp (bytes (s ++ 0 ∷ []))

abbrev pub write : Bytes → Scalar → Outcome QueryError Bytes
write = binary_write little_endian

abbrev pub encoder : WireEncoder
encoder = record { write_string = write_string; write = write }

abbrev pub a2s_info_request : Bytes
a2s_info_request = 0xFF ∷ 0xFF ∷ 0xFF ∷ 0xFF ∷ 0x54 ∷ []

abbrev pub a2s_info_response : Bytes
a2s_info_response = 0xFF ∷ 0xFF ∷ 0xFF ∷ 0xFF ∷ 0x49 ∷ []

abbrev pub s2c_challenge_response : Bytes
s2c_challenge_response = 0xFF ∷ 0xFF ∷ 0xFF ∷ 0xFF ∷ 0x41 ∷ []

pub record ChallengeWireFormat : Type 0 where
  pub header : Bytes
  pub challenge : ℕ

abbrev pub challenge_fields : ChallengeWireFormat → Fields
challenge_fields c = field (scalar (bytes c.header)) (field (scalar (uint32 c.challenge)) end)

pub record InfoWireFormat : Type 0 where
  pub header : Bytes
  pub protocol : ℕ
  pub server_name : Bytes
  pub game_map : Bytes
  pub game_folder : Bytes
  pub game_name : Bytes
  pub steam_app_id : ℕ
  pub player_count : ℕ
  pub max_players : ℕ
  pub num_bots : ℕ
  pub server_type : ℕ
  pub environment : ℕ
  pub visibility : ℕ
  pub vac_enabled : ℕ
  pub version : Bytes

abbrev pub info_fields : InfoWireFormat → Fields
info_fields w = field (scalar (bytes w.header)) (
    field (scalar (uint8 w.protocol)) (
      field (string w.server_name) (
        field (string w.game_map) (
          field (string w.game_folder) (
            field (string w.game_name) (
              field (scalar (int16 w.steam_app_id)) (
                field (scalar (uint8 w.player_count)) (
                  field (scalar (uint8 w.max_players)) (
                    field (scalar (uint8 w.num_bots)) (
                      field (scalar (uint8 w.server_type)) (
                        field (scalar (uint8 w.environment)) (
                          field (scalar (uint8 w.visibility)) (
                            field (scalar (uint8 w.vac_enabled))
                              (field (string w.version) end))))))))))))))

-- `rt` is runtime.GOOS.
unfoldable pub environment_from_runtime : Bytes → ℕ
environment_from_runtime rt =
    if bytes_eq rt (codes "darwin")
    then b'm'
    else if bytes_eq rt (codes "windows")
    then b'w'
    else b'l'

abbrev pub not_available : Bytes
not_available = codes "n/a"

abbrev pub base_format : Bytes → InfoWireFormat
base_format os = record {
  header = a2s_info_response;
  protocol = 1;
  server_name = not_available;
  game_map = not_available;
  game_folder = not_available;
  game_name = not_available;
  steam_app_id = 0;
  player_count = 0;
  max_players = 0;
  num_bots = 0;
  server_type = b'd';
  environment = environment_from_runtime os;
  visibility = 0;
  vac_enabled = 0;
  version = [];
}

-- `byte(…)` of an int32 keeps its low 8 bits.
unfoldable pub info_format : Option QueryState → Bytes → InfoWireFormat
info_format none os = base_format os
info_format (some qs) os = record (base_format os) {
  server_name = qs.server_name;
  game_map = qs.game_map;
  player_count = qs.current_players % 256;
  max_players = qs.max_players % 256;
  game_name = qs.game_type;
}

pub record InfoRequest : Type 0 where
  pub payload : Bytes
  pub challenge : ℕ

-- The loop of `parseInfoRequest` from index `n` on, for so many rounds at most. The test keeps
-- `buf[n]` in range.
unfoldable pub scan : Bytes → ℕ → ℕ → ℕ
scan buf zero n = n
scan buf (suc rounds) n =
    let rest = scan buf rounds (n + 1) in
    if ltb n (length buf) then (if get_or buf n 0 == 0 then n else rest) else n

-- binary.Read of `n` bytes from a bytes.Buffer. Its io.EOF, of an empty buffer, is not told apart.
unfoldable pub read_full : ℕ → Bytes → Outcome QueryError (Bytes × Bytes)
read_full n buf = if ltb (length buf) n then err unexpected_eof else ok (take n buf, drop n buf)

le_uint32 : Bytes → Outcome QueryError ℕ
le_uint32 (a ∷ b ∷ c ∷ d ∷ rest) = ok (word32 d c b a)
le_uint32 _ = err unexpected_eof

-- The payload, if there is one, and what the buffer holds behind it.
read_payload : ℕ → Bytes → Outcome QueryError (Bytes × Bytes)
unfolding read_full
read_payload l buf = if ltb 0 l then read_full l buf else ok ([], buf)

unfoldable pub parse_info_request : Bytes → Outcome QueryError InfoRequest
unfolding scan read_payload le_uint32
parse_info_request buf = bind (subslice buf 0 5) λ head.
    if not (bytes_eq head a2s_info_request)
    then err not_an_info_request
    else bind (subslice buf 5 (length buf)) λ rest.
      let n = scan buf (length buf) 5 in
      bind (read_payload (n - 5) rest) λ p.
        if leb (length buf) (n + 1)
        then ok (record { payload = p.0; challenge = 0 })
        else bind (le_uint32 (drop 1 p.1)) λ c. ok (record { payload = p.0; challenge = c })

-- The response's fields: no challenge, or the challenge 0, asks for one.
unfoldable pub reply_fields : Option QueryState → Bytes → Readings → Bytes → ℕ → Query Fields
reply_fields st os r client challenge =
    if challenge == 0
    then (do
      fresh ← generate r client
      lift (ok (challenge_fields (record { header = s2c_challenge_response; challenge = fresh }))))
    else (do check client challenge; lift (ok (info_fields (info_format st os))))

unfoldable pub handle_info_request :
    Option QueryState → Bytes → Readings → Bytes → Bytes → Query Bytes
unfolding reply_fields
handle_info_request st os r client buf = do
  info ← lift (parse_info_request buf)
  f ← reply_fields st os r client info.challenge
  lift (wire_write encoder [] f)

-- `NewQueryResponder`. The state is handed to each call.
abbrev pub new_query_responder : QueryBase
new_query_responder = no_challenges

unfoldable pub respond : Option QueryState → Bytes → Readings → Bytes → Bytes → Query Bytes
respond st os r client buf = do
  head ← lift (subslice buf 0 5)
  if bytes_eq head a2s_info_request
      then handle_info_request st os r client buf
      else lift (err (unsupported_query_header head))
