-- ===== src/Server/Queries/Clients.antt =====
-- What a client that follows its protocol reads from the answers of `handleQuery`.
use unity_gaming_services_go.Prelude.{
  ℕ, ◌+◌, ◌-◌, ◌≤◌, ◌<◌, ◌^◌, ◌≡◌, ◌≢◌, refl, sym, subst, codes, ◌∙◌, ◌&&◌, leb, [], ◌∷◌, ◌++◌,
  false, none, some, Bytes, List, All, arith, be32, le32, word32, length,
}
use native.Mathlib.Nat.{mod-eq_of_lt}
use unity_gaming_services_go.Proto.Wire.{QueryState}
use unity_gaming_services_go.Proto.Challenge.{QueryBase, Readings, minute}
use unity_gaming_services_go.Proto.Challenge.Laws.{generated, generate_challenge_lem}
use unity_gaming_services_go.A2s.{
  InfoWireFormat, info_format, environment_from_runtime, s2c_challenge_response,
}
use unity_gaming_services_go.A2s.Parse.{NoNull, info_packet}
use unity_gaming_services_go.A2s.Respond.{info_bytes, challenge_packet}
use unity_gaming_services_go.A2s.Decode as A2sDecode
use unity_gaming_services_go.Sqp.{wants_server_info, wants_metrics}
use unity_gaming_services_go.Sqp.Info.{ServerInfo, query_state_to_server_info}
use unity_gaming_services_go.Sqp.Sizes.{IsWindow, reported_metrics}
use unity_gaming_services_go.Sqp.Layout.{body, response}
use unity_gaming_services_go.Sqp.Respond.{query_packet}
use unity_gaming_services_go.Sqp.Decode as SqpDecode
use unity_gaming_services_go.Sqp.Decode.RoundTrip.{IsWire, if_asked, decode-response}
use unity_gaming_services_go.Server.{Server, sqp_responder, a2s_responder}
use unity_gaming_services_go.Server.Queries.{Reading, datagram, again, handle_query}
use unity_gaming_services_go.Server.Queries.Handshake.{handshake}
use unity_gaming_services_go.Server.Queries.InfoRounds.{request_round, challenge_round}

-- The two datagrams of a client, the second with the challenge it was given.
abbrev pub sqp_queries : Bytes → Readings → Readings → ℕ → ℕ → ℕ → List Reading
sqp_queries client r t v version chunks =
    datagram client [] r false none
    ∷ datagram client (query_packet v version chunks []) t false none
    ∷ []

abbrev pub a2s_queries : Bytes → Readings → Readings → Bytes → ℕ → List Reading
a2s_queries client r t payload v =
    datagram client (info_packet (payload ++ 0 ∷ [])) r false none
    ∷ datagram client (challenge_packet payload v []) t false none
    ∷ []

-- A state whose numbers and texts the fields of a response can hold.
pub record FitsSqp (qs : QueryState) : Type 0 where
  pub current_fits : qs.current_players < 65536
  pub max_fits : qs.max_players < 65536
  pub name_fits : length qs.server_name < 256
  pub type_fits : length qs.game_type < 256
  pub map_fits : length qs.game_map < 256
  pub port_fits : qs.port < 65536
  pub window : IsWindow qs.metrics
  pub metrics_fit : All (λ m. m < 4294967296) (reported_metrics qs)

pub record FitsA2s (qs : QueryState) : Type 0 where
  pub current_fits : qs.current_players < 256
  pub max_fits : qs.max_players < 256
  pub name_fits : NoNull qs.server_name
  pub type_fits : NoNull qs.game_type
  pub map_fits : NoNull qs.game_map

-- The state as the two protocols show it.
abbrev pub shown_by_sqp : QueryState → ServerInfo
shown_by_sqp qs = record {
  current_players = qs.current_players;
  max_players = qs.max_players;
  server_name = qs.server_name;
  game_type = qs.game_type;
  build_id = [];
  game_map = qs.game_map;
  port = qs.port;
}

abbrev pub shown_by_a2s : QueryState → ℕ → InfoWireFormat
shown_by_a2s qs environment = record {
  header = 0xFF ∷ 0xFF ∷ 0xFF ∷ 0xFF ∷ 0x49 ∷ [];
  protocol = 1;
  server_name = qs.server_name;
  game_map = qs.game_map;
  game_folder = codes "n/a";
  game_name = qs.game_type;
  steam_app_id = 0;
  player_count = qs.current_players;
  max_players = qs.max_players;
  num_bots = 0;
  server_type = 100;
  environment = environment;
  visibility = 0;
  vac_enabled = 0;
  version = [];
}

sqp_shows : (qs : QueryState) → FitsSqp qs → query_state_to_server_info (some qs) ≡ shown_by_sqp qs
unfolding query_state_to_server_info
sqp_shows qs h = rw (mod-eq_of_lt h.current_fits, mod-eq_of_lt h.max_fits) refl

a2s_shows :
    (qs : QueryState) (os : Bytes)
    → FitsA2s qs
    → info_format (some qs) os ≡ shown_by_a2s qs (environment_from_runtime os)
unfolding info_format
a2s_shows qs os h = rw (mod-eq_of_lt h.current_fits, mod-eq_of_lt h.max_fits) refl

shown-IsWire : (qs : QueryState) → FitsSqp qs → IsWire (query_state_to_server_info (some qs))
shown-IsWire qs h = subst IsWire (sym (sqp_shows qs h)) (record {
  current_fits = h.current_fits;
  max_fits = h.max_fits;
  name_fits = h.name_fits;
  type_fits = h.type_fits;
  build_fits = omega arith;
  map_fits = h.map_fits;
  port_fits = h.port_fits;
})

-- On a server with an open binding, a read buffer of 8 bytes or more, the SQP responder and a
-- state that the protocol's fields can hold: when a client sends an empty datagram, and then a
-- query with the challenge that the random source gave (a 32-bit word) and a version up to 2, and
-- no write fails, the loop of handleQuery answers twice, first with the challenge, and goes on;
-- and a reader written from the SQP format gets back from the second answer the challenge and the
-- chunks asked for: the state's player counts, texts and port as they are, and at most ten of its
-- metrics (from version 2 on), with nothing left over.
pub sqp_client_reads :
    (os : Bytes) (s : Server) (client : Bytes) (q : QueryBase) (r t : Readings)
    (a b c d version chunks : ℕ)
    → s.query_bind ≡ some false
    → s.query_proto ≡ some (sqp_responder q)
    → 8 ≤ s.query_read_buffer_size_bytes
    → r.random ≡ some (a, b, c, d)
    → word32 a b c d < 2 ^ 32
    → version ≤ 2
    → FitsSqp s.state
    → let v = word32 a b c d in
      let seen = handle_query os (sqp_queries client r t v version chunks) s in
      (out : Bytes) × (seen.replies ≡ (client, 0 ∷ be32 v) ∷ (client, out) ∷ [])
      × (SqpDecode.decode (wants_server_info chunks) (leb 2 version && wants_metrics chunks) out
          ≡ some (
            record {
              challenge = v;
              announced = length (body s.state version chunks);
              info = if_asked (wants_server_info chunks) (shown_by_sqp s.state);
              metrics = if_asked (leb 2 version && wants_metrics chunks) (reported_metrics s.state);
            },
            [],
          ))
      × (seen.next ≡ again)
sqp_client_reads os s client q r t a b c d version chunks hb hp hn hr hv h2 fits =
    let h = handshake os s client q r t a b c d version chunks hb hp hn fits.window hr hv h2 in
    (
      response (word32 a b c d) (body s.state version chunks),
      h.0,
      decode-response s.state (word32 a b c d) version chunks hv (shown-IsWire s.state fits)
            fits.metrics_fit
          ∙ (rw (sqp_shows s.state fits) refl),
      h.1,
    )

-- On a server with an open binding, the A2S responder, a read buffer that holds the client's
-- request (payload and ten bytes) and a state that the protocol's fields can hold: when a client
-- sends a request with a payload without null bytes and no challenge, and then the request with
-- the challenge that the random source gave (a 32-bit word other than 0), and no write fails, the
-- loop of handleQuery answers twice, first with the challenge, and goes on; and a reader written
-- from the A2S format gets back from the second answer the state's player counts, name, map and
-- game type as they are, with nothing left over.
pub a2s_client_reads :
    (os : Bytes) (s : Server) (client payload : Bytes) (q : QueryBase) (r t : Readings)
    (a b c d : ℕ)
    → s.query_bind ≡ some false
    → s.query_proto ≡ some (a2s_responder q)
    → length payload + 10 ≤ s.query_read_buffer_size_bytes
    → NoNull payload
    → r.random ≡ some (a, b, c, d)
    → word32 a b c d < 2 ^ 32
    → word32 a b c d ≢ 0
    → FitsA2s s.state
    → let v = word32 a b c d in
      let seen = handle_query os (a2s_queries client r t payload v) s in
      (out : Bytes) × (seen.replies
        ≡ (client, s2c_challenge_response ++ le32 v) ∷ (client, out) ∷ [])
      × (A2sDecode.decode out ≡ some (shown_by_a2s s.state (environment_from_runtime os), []))
      × (seen.next ≡ again)
unfolding handle_query
a2s_client_reads os s client payload q r t a b c d hb hp hn plain hr hv nz fits =
    let k = s.query_read_buffer_size_bytes - (length payload + 10) in
    let room : s.query_read_buffer_size_bytes ≡ length payload + 10 + k = omega (arith, hn) in
    let first = request_round os s client q r payload k hb hp room plain a b c d hr in
    let second =
      challenge_round os (record s { query_proto = some (a2s_responder (generated q r client)) })
        client (generated q r client) t payload k hb refl room plain
        (record { value = word32 a b c d; expiry_utc = r.stored + minute }) hv nz
        (generate_challenge_lem q r client a b c d hr).1 in
    (
      info_bytes (info_format (some s.state) os),
      rw first (rw second refl),
      A2sDecode.decode-info_bytes s.state os fits.name_fits fits.map_fits fits.type_fits
          ∙ (rw (a2s_shows s.state os fits) refl),
      rw first (rw second refl),
    )
