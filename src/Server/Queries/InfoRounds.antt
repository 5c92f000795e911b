-- ===== src/Server/Queries/InfoRounds.antt =====
-- The rounds of `handleQuery` that answer an A2S client.
use unity_gaming_services_go.Prelude.{
  ℕ, suc, ◌+◌, ◌-◌, ◌≤◌, ◌<◌, ◌^◌, ◌≡◌, ◌≢◌, refl, ◌∙◌, inl, inr, [], ◌∷◌, ◌++◌, false, none, some,
  Bytes, take_all, replicate, arith, le32, word32, length, length-append, append_assoc, ok,
}
use unity_gaming_services_go.Proto.Challenge.{QueryBase, Readings, challenge_entry, ChallengeEntry}
use unity_gaming_services_go.Proto.Challenge.Laws.{matched, generated}
use unity_gaming_services_go.A2s.{info_format, s2c_challenge_response, respond}
use unity_gaming_services_go.A2s.Parse.{NoNull, info_packet}
use unity_gaming_services_go.A2s.Respond.{
  info_bytes, challenge_packet, respond_without_challenge, respond_with_challenge,
}
use unity_gaming_services_go.Server.{Server, a2s_responder}
use unity_gaming_services_go.Server.Queries.{datagram, again, turn, read_into, round}

padded : (n : ℕ) (d : Bytes) → length d ≤ n → read_into n d ≡ d ++ replicate (n - length d) 0
unfolding read_into
padded n d h = rw (take_all n d h) refl

length-request : (payload : Bytes) → length (info_packet (payload ++ 0 ∷ [])) ≡ length payload + 6
length-request payload = omega (arith, length-append payload (0 ∷ []))

length-challenge :
    (payload : Bytes) (x : ℕ) → length (challenge_packet payload x []) ≡ length payload + 10
length-challenge payload x = omega (arith, length-append payload (0 ∷ (le32 x ++ [])))

-- A request without a challenge has one of zeros behind it, since the buffer is cleared.
request_padded :
    (payload : Bytes) (n k : ℕ)
    → n ≡ length payload + 10 + k
    → read_into n (info_packet (payload ++ 0 ∷ [])) ≡ challenge_packet payload 0 (replicate k 0)
request_padded payload n k h =
    let size = length-request payload in
    let left : n - length (info_packet (payload ++ 0 ∷ [])) ≡ suc (suc (suc (suc k))) =
      omega (arith, size, h) in
    padded n (info_packet (payload ++ 0 ∷ [])) (omega (arith, size, h))
    ∙ rw (left, append_assoc payload) refl

challenge_padded :
    (payload : Bytes) (n k x : ℕ)
    → n ≡ length payload + 10 + k
    → read_into n (challenge_packet payload x []) ≡ challenge_packet payload x (replicate k 0)
challenge_padded payload n k x h =
    let size = length-challenge payload x in
    let left : n - length (challenge_packet payload x []) ≡ k = omega (arith, size, h) in
    padded n (challenge_packet payload x []) (omega (arith, size, h))
    ∙ rw (left, append_assoc payload) refl

module _ (os : Bytes) (s : Server) (client : Bytes) (q : QueryBase) (r : Readings) (payload : Bytes)
    (k : ℕ) (bound : s.query_bind ≡ some false) (proto : s.query_proto ≡ some (a2s_responder q))
    (room : s.query_read_buffer_size_bytes ≡ length payload + 10 + k) (plain : NoNull payload) where
  pub request_round :
      (a b c d : ℕ)
      → r.random ≡ some (a, b, c, d)
      → round os s (datagram client (info_packet (payload ++ 0 ∷ [])) r false none)
        ≡ turn
            (record s { query_proto = some (a2s_responder (generated q r client)) })
            ((client, s2c_challenge_response ++ le32 (word32 a b c d)) ∷ [])
            again
  unfolding round
  request_round a b c d h =
      rw
        (
          bound,
          proto,
          request_padded payload s.query_read_buffer_size_bytes k room,
          (respond_without_challenge (some s.state) os r client payload (replicate k 0) q a b c d
              plain h).1,
        )
        refl

  -- The challenge the client was given is right.
  accepted :
      (e : ChallengeEntry)
      → e.value < 2 ^ 32
      → e.value ≢ 0
      → q.challenges client ≡ some (challenge_entry e)
      → respond (some s.state) os r client (challenge_packet payload e.value (replicate k 0)) q
        ≡ (matched q client e.value, ok (info_bytes (info_format (some s.state) os)))
  accepted e small nonzero held =
      elim (respond_with_challenge (some s.state) os r client payload (replicate k 0) q e.value e
        plain small nonzero held) [ inl h ↦ h.1 | inr h ↦ absurd (h.0 refl) ]

  pub challenge_round :
      (e : ChallengeEntry)
      → e.value < 2 ^ 32
      → e.value ≢ 0
      → q.challenges client ≡ some (challenge_entry e)
      → round os s (datagram client (challenge_packet payload e.value []) r false none)
        ≡ turn
            (record s { query_proto = some (a2s_responder (matched q client e.value)) })
            ((client, info_bytes (info_format (some s.state) os)) ∷ [])
            again
  unfolding round
  challenge_round e small nonzero held =
      rw
        (
          bound,
          proto,
          challenge_padded payload s.query_read_buffer_size_bytes k e.value room,
          accepted e small nonzero held,
        )
        refl
