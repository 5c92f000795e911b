-- ===== src/Sqp.antt =====
-- game-server-hosting/server/proto/sqp: the responder of the SQP protocol.
pub mod Info
pub mod Sizes
pub mod Layout
pub mod Respond
pub mod Decode
pub mod Faults
use Prim.Native.Nat.{min}
use unity_gaming_services_go.Prelude.{
  ℕ, ◌+◌, ◌%◌, ◌≤◌, Bool, true, false, List, [], ◌∷◌, Option, none, some, Outcome, ok, err, panic,
  Bytes, Bytes-discrete, word16, word32, length, subslice, index, ltb, ◌==◌, if◌then◌else◌, ite,
  bit_and, leb, ◌&&◌, bytes_eq, ◌>>=◌ as bind,
}
use unity_gaming_services_go.Proto.Challenge.{
  QueryBase, no_challenges, QueryError, invalid_packet_length, unsupported_query,
  unsupported_sqp_version, Readings,
}
use unity_gaming_services_go.Proto.Wire.{
  QueryState, Scalar, uint8, uint16, uint32, float32s, Fields, end, field, nil_pointer, pointer,
  Value, struct, scalar, wire_write,
}
use unity_gaming_services_go.Proto.Responder.{Query, ◌>>=◌, ◌>>◌, lift, generate, check}
use Info.{
  ServerInfo, MetricsInfo, query_state_to_server_info, query_state_to_metrics, server_info_size,
  metrics_info_size, server_info_fields, metrics_info_fields, encoder,
}

pub record ChallengeWireFormat : Type 0 where
  pub header : ℕ
  pub challenge : ℕ

abbrev pub challenge_fields : ChallengeWireFormat → Fields
challenge_fields c = field (scalar (uint8 c.header)) (field (scalar (uint32 c.challenge)) end)

pub record QueryWireFormat : Type 0 where
  pub header : ℕ
  pub challenge : ℕ
  pub sqp_version : ℕ
  pub current_packet_num : ℕ
  pub last_packet_num : ℕ
  pub payload_length : ℕ
  pub server_info_length : Option ℕ
  pub server_info : Option ServerInfo
  pub metrics_info_length : Option ℕ
  pub metrics_info : Option MetricsInfo

-- A pointer field, nil or not.
abbrev pub pointer_to {ℓ} : {A : Type ℓ} → Option A → (A → Value) → Fields → Fields
pointer_to none f fs = nil_pointer fs
pointer_to (some a) f fs = pointer (f a) fs

abbrev pub query_fields : QueryWireFormat → Fields
query_fields f = field (scalar (uint8 f.header)) (
    field (scalar (uint32 f.challenge)) (
      field (scalar (uint16 f.sqp_version)) (
        field (scalar (uint8 f.current_packet_num)) (
          field (scalar (uint8 f.last_packet_num)) (
            field (scalar (uint16 f.payload_length)) (
              pointer_to f.server_info_length (λ n. scalar (uint32 n))
                (pointer_to f.server_info (λ i. struct (server_info_fields i))
                  (pointer_to f.metrics_info_length (λ n. scalar (uint32 n))
                    (pointer_to f.metrics_info (λ m. struct (metrics_info_fields m)) end)))))))))

-- binary.BigEndian.Uint32 and Uint16, which index their argument.
abbrev pub be_uint32 : Bytes → Outcome QueryError ℕ
be_uint32 (a ∷ b ∷ c ∷ d ∷ rest) = ok (word32 a b c d)
be_uint32 _ = panic

abbrev pub be_uint16 : Bytes → Outcome QueryError ℕ
be_uint16 (a ∷ b ∷ rest) = ok (word16 a b)
be_uint16 _ = panic

unfoldable pub is_challenge : Bytes → Outcome QueryError Bool
is_challenge buf = bind (subslice buf 0 5) λ head. ok (bytes_eq head (0 ∷ 0 ∷ 0 ∷ 0 ∷ 0 ∷ []))

unfoldable pub is_query : Bytes → Outcome QueryError Bool
is_query buf = bind (index buf 0) λ b. ok (b == 1)

-- `requestedChunks&0x1 == 1` and `requestedChunks&0x10 == 16`.
unfoldable pub wants_server_info : ℕ → Bool
wants_server_info chunks = bit_and chunks 0x1 == 1

unfoldable pub wants_metrics : ℕ → Bool
wants_metrics chunks = bit_and chunks 0x10 == 16

unfoldable pub handle_challenge : Readings → Bytes → Query Bytes
handle_challenge r client = do
  v ← generate r client
  lift (wire_write encoder [] (challenge_fields (record { header = 0; challenge = v })))

abbrev pub empty_format : ℕ → QueryWireFormat
empty_format challenge = record {
  header = 1;
  challenge = challenge;
  sqp_version = 1;
  current_packet_num = 0;
  last_packet_num = 0;
  payload_length = 0;
  server_info_length = none;
  server_info = none;
  metrics_info_length = none;
  metrics_info = none;
}

-- `f.PayloadLength += uint16(size) + 4`, in uint16.
abbrev pub add_payload : ℕ → ℕ → ℕ
add_payload payload size = (payload + (size % 65536 + 4) % 65536) % 65536

unfoldable pub add_server_info : Option QueryState → QueryWireFormat → QueryWireFormat
add_server_info st f =
    let info = query_state_to_server_info st in
    let size = server_info_size info in
    record f {
      server_info = some info;
      server_info_length = some size;
      payload_length = add_payload f.payload_length size;
    }

unfoldable pub add_metrics :
    Option QueryState → QueryWireFormat → Outcome QueryError QueryWireFormat
add_metrics st f = bind (query_state_to_metrics st) λ info.
    let size = metrics_info_size info in
    ok (record f {
      metrics_info = some info;
      metrics_info_length = some size;
      payload_length = add_payload f.payload_length size;
    })

-- The part of `handleQuery` behind the version check. Metrics are supported from version 2 on.
unfoldable pub answer : Option QueryState → ℕ → ℕ → ℕ → Outcome QueryError Bytes
unfolding add_server_info add_metrics wants_server_info wants_metrics
answer st challenge version chunks =
    let f = empty_format challenge in
    let g = if wants_server_info chunks then add_server_info st f else f in
    bind (if leb 2 version && wants_metrics chunks then add_metrics st g else ok g)
      λ h. wire_write encoder [] (query_fields h)

unfoldable pub handle_query : Option QueryState → Bytes → Bytes → Query Bytes
handle_query st client buf = if ltb (length buf) 8 then lift (err invalid_packet_length) else do
  challenge ← lift (bind (subslice buf 1 5) be_uint32)
  check client challenge
  version ← lift (bind (subslice buf 5 7) be_uint16)
  lift (
      if ltb 2 version
      then err (unsupported_sqp_version version)
      else bind (index buf 7) λ chunks. answer st challenge version chunks)

-- `NewQueryResponder`. The state is handed to each call.
abbrev pub new_query_responder : QueryBase
new_query_responder = no_challenges

-- `Respond`. `st` is what the responder's state pointer shows when the call reads it.
unfoldable pub respond : Option QueryState → Readings → Bytes → Bytes → Query Bytes
unfolding is_challenge is_query
respond st r client buf = do
  challenge ← lift (is_challenge buf)
  if challenge then handle_challenge r client else do
    query ← lift (is_query buf)
    if query then handle_query st client buf else lift (err unsupported_query)
