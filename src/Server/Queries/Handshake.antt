-- ===== src/Server/Queries/Handshake.antt =====
-- A client's query over SQP, from its first datagram to the response.
use unity_gaming_services_go.Prelude.{
  ℕ, suc, ◌+◌, ◌-◌, ◌≤◌, ◌<◌, ◌^◌, ◌≡◌, refl, [], ◌∷◌, false, none, some, Bytes, take, take_all,
  replicate, arith, be32, word32,
}
use unity_gaming_services_go.Proto.Challenge.{QueryBase, Readings, challenge_entry, ChallengeEntry}
use unity_gaming_services_go.Proto.Challenge.Laws.{matched, generated, generate_challenge_lem}
use unity_gaming_services_go.Sqp.Sizes.{IsWindow}
use unity_gaming_services_go.Sqp.Layout.{body, response}
use unity_gaming_services_go.Sqp.Respond.{
  query_packet, challenge_packet, respond-response, respond_challenge,
}
use unity_gaming_services_go.Server.{Server, sqp_responder}
use unity_gaming_services_go.Server.Queries.{datagram, again, turn, read_into, round, handle_query}

take_nil : (n : ℕ) → Path Bytes (take n []) []
take_nil n = take_all n [] (omega arith)

-- An empty datagram reads as a request for a challenge, since the buffer is cleared.
empty_datagram : (n : ℕ) → 5 ≤ n → read_into n [] ≡ challenge_packet (replicate (n - 5) 0)
unfolding read_into
empty_datagram (suc (suc (suc (suc (suc n))))) h =
    let all : suc (suc (suc (suc (suc n)))) - 0 ≡ suc (suc (suc (suc (suc n)))) = omega arith in
    let behind : suc (suc (suc (suc (suc n)))) - 5 ≡ n = omega arith in rw (all, behind) refl
empty_datagram _ h = absurd (omega arith)

query_datagram :
    (n c version chunks : ℕ)
    → 8 ≤ n
    → read_into n (query_packet c version chunks [])
      ≡ query_packet c version chunks (replicate (n - 8) 0)
unfolding read_into
query_datagram (suc (suc (suc (suc (suc (suc (suc (suc n)))))))) c version chunks h =
    let behind : suc (suc (suc (suc (suc (suc (suc (suc n))))))) - 8 ≡ n = omega arith in
    rw (take_nil n) (rw behind refl)
query_datagram _ c version chunks h = absurd (omega arith)

module _ (os : Bytes) (s : Server) (client : Bytes) (q : QueryBase) (r : Readings) where
  ask_round :
      (a b c d : ℕ)
      → s.query_bind ≡ some false
      → s.query_proto ≡ some (sqp_responder q)
      → 5 ≤ s.query_read_buffer_size_bytes
      → r.random ≡ some (a, b, c, d)
      → round os s (datagram client [] r false none)
        ≡ turn
            (record s { query_proto = some (sqp_responder (generated q r client)) })
            ((client, 0 ∷ be32 (word32 a b c d)) ∷ [])
            again
  unfolding round
  ask_round a b c d hb hp hn hr =
      rw
        (
          hb,
          hp,
          empty_datagram s.query_read_buffer_size_bytes hn,
          respond_challenge (some s.state) r client
              (replicate (s.query_read_buffer_size_bytes - 5) 0) a b c d q hr,
        )
        refl

  query_round :
      (e : ChallengeEntry) (version chunks : ℕ)
      → s.query_bind ≡ some false
      → s.query_proto ≡ some (sqp_responder q)
      → 8 ≤ s.query_read_buffer_size_bytes
      → IsWindow s.state.metrics
      → q.challenges client ≡ some (challenge_entry e)
      → e.value < 2 ^ 32
      → version ≤ 2
      → round os s (datagram client (query_packet e.value version chunks []) r false none)
        ≡ turn
            (record s { query_proto = some (sqp_responder (matched q client e.value)) })
            ((client, response e.value (body s.state version chunks)) ∷ [])
            again
  unfolding round
  query_round e version chunks hb hp hn hw he hv h2 =
      rw
        (
          hb,
          hp,
          query_datagram s.query_read_buffer_size_bytes e.value version chunks hn,
          respond-response s.state r client version chunks
              (replicate (s.query_read_buffer_size_bytes - 8) 0) q e hw he hv h2,
        )
        refl

-- On a server with an open binding, a read buffer of 8 bytes or more, the SQP responder and
-- metrics within their array: when a client sends an empty datagram, and then a query with the
-- challenge that the random source gave (a 32-bit word) and a version up to 2, and no write
-- fails, the loop of handleQuery answers first with the challenge and then with the response to
-- the chunks asked for, and goes on.
pub handshake :
    (os : Bytes) (s : Server) (client : Bytes) (q : QueryBase) (r t : Readings)
    (a b c d version chunks : ℕ)
    → s.query_bind ≡ some false
    → s.query_proto ≡ some (sqp_responder q)
    → 8 ≤ s.query_read_buffer_size_bytes
    → IsWindow s.state.metrics
    → r.random ≡ some (a, b, c, d)
    → word32 a b c d < 2 ^ 32
    → version ≤ 2
    → let v = word32 a b c d in
      let seen =
        handle_query os
          (datagram client [] r false none
            ∷ datagram client (query_packet v version chunks []) t false none
            ∷ [])
          s in
      (seen.replies
        ≡ (client, 0 ∷ be32 v) ∷ (client, response v (body s.state version chunks)) ∷ [])
      × (seen.next ≡ again)
unfolding handle_query
handshake os s client q r t a b c d version chunks hb hp hn hw hr hv h2 =
    rw (ask_round os s client q r a b c d hb hp (omega arith) hr) (
      rw
        (query_round os (record s { query_proto = some (sqp_responder (generated q r client)) })
          client (generated q r client) t
          (record { value = word32 a b c d; expiry_utc = r.stored + 60000000000 }) version chunks hb
          refl hn hw (generate_challenge_lem q r client a b c d hr).1 hv h2)
        (refl, refl))
