-- ===== src/Sqp/Respond.antt =====
-- `Respond` of sqp.go on whole packets.
use unity_gaming_services_go.Prelude.{
  ℕ, suc, ◌^◌, ◌≤◌, ◌<◌, ◌≡◌, refl, ap, ◌∙◌, true, false, ◌∷◌, ◌++◌, Option, none, some, Outcome,
  ok, err, panic, Bytes, be16, be32, word32, word16-be16, word32-be32, leb, ltb, if◌then◌else◌,
  length, arith,
}
use unity_gaming_services_go.Proto.Challenge.{
  QueryError, no_challenge, unsupported_sqp_version, challenge_entry, ChallengeEntry, QueryBase,
  Readings, generate_challenge, challenge_matches_for_client, judge,
}
use unity_gaming_services_go.Proto.Challenge.Laws.{
  matched, generated, update_self, generate_challenge_lem,
}
use unity_gaming_services_go.Proto.Wire.{QueryState}
use unity_gaming_services_go.Proto.Responder.{continue, lift}
use unity_gaming_services_go.Proto.Wire.Format.{format, wire_write-format}
use unity_gaming_services_go.Sqp.Sizes.{IsWindow, encoder-IsAppending}
use unity_gaming_services_go.Sqp.Layout.{body, response, answer-response}
use unity_gaming_services_go.Sqp.{respond, handle_challenge, handle_query, answer}

-- Five zero bytes ask for a challenge.
abbrev pub challenge_packet : Bytes → Bytes
challenge_packet rest = 0 ∷ 0 ∷ 0 ∷ 0 ∷ 0 ∷ rest

abbrev pub query_packet : ℕ → ℕ → ℕ → Bytes → Bytes
query_packet challenge version chunks rest =
    1 ∷ (be32 challenge ++ (be16 version ++ (chunks ∷ rest)))

-- The bounds checks on a packet that is long enough.
pub at_least_8 : (n : ℕ) → ltb (suc (suc (suc (suc (suc (suc (suc (suc n)))))))) 8 ≡ false
at_least_8 n = ground arith

pub within_5_of_8 : (n : ℕ) → leb 5 (suc (suc (suc (suc (suc (suc (suc (suc n)))))))) ≡ true
within_5_of_8 n = ground arith

pub within_7_of_8 : (n : ℕ) → leb 7 (suc (suc (suc (suc (suc (suc (suc (suc n)))))))) ≡ true
within_7_of_8 n = ground arith

pub within_5_of_5 : (n : ℕ) → leb 5 (suc (suc (suc (suc (suc n))))) ≡ true
within_5_of_5 n = ground arith

-- What a query packet does, with the check of the challenge left shut.
pub respond_query :
    (st : Option QueryState) (r : Readings) (client : Bytes) (challenge version chunks : ℕ)
    (rest : Bytes) (q : QueryBase)
    → challenge < 2 ^ 32
    → version < 65536
    → respond st r client (query_packet challenge version chunks rest) q
      ≡ continue (challenge_matches_for_client q client challenge) (λ _. lift (
          if ltb 2 version
          then err (unsupported_sqp_version version)
          else answer st challenge version chunks))
unfolding respond handle_query
respond_query st r client challenge version chunks rest q hc hv = rw (
  at_least_8 (length rest),
  within_5_of_8 (length rest),
  within_7_of_8 (length rest),
  word32-be32 challenge hc,
  word16-be16 version hv,
)

continue-lift :
    (m : QueryBase × Outcome QueryError (Unit {0})) (k : Outcome QueryError Bytes)
    → (continue m (λ _. lift k)).0 ≡ m.0
continue-lift (q, ok u) k = refl
continue-lift (q, err e) k = refl
continue-lift (q, panic) k = refl

-- What the base is after a query, whatever its verdict.
after_query :
    (st : Option QueryState) (r : Readings) (client : Bytes) (challenge version chunks : ℕ)
    (rest : Bytes) (q : QueryBase)
    → challenge < 2 ^ 32
    → version < 65536
    → (respond st r client (query_packet challenge version chunks rest) q).0
      ≡ matched q client challenge
after_query st r client challenge version chunks rest q hc hv =
    rw (respond_query st r client challenge version chunks rest q hc hv)
      (continue-lift (challenge_matches_for_client q client challenge) _)

-- A client that sends back the challenge it was given, with a version up to 2, gets the response
-- to what it asked for. Its challenge is used up.
pub respond-response :
    (qs : QueryState) (r : Readings) (client : Bytes) (version chunks : ℕ) (rest : Bytes)
    (q : QueryBase) (e : ChallengeEntry)
    → IsWindow qs.metrics
    → q.challenges client ≡ some (challenge_entry e)
    → e.value < 2 ^ 32
    → version ≤ 2
    → respond (some qs) r client (query_packet e.value version chunks rest) q
      ≡ (matched q client e.value, ok (response e.value (body qs version chunks)))
unfolding challenge_matches_for_client
respond-response qs r client version chunks rest q e hw he hv hver =
    respond_query (some qs) r client e.value version chunks rest q hv (omega arith)
    ∙ rw (he, accepted, low) (rw (answer-response qs e.value version chunks hw))
  where
    accepted : judge (some (challenge_entry e)) e.value ≡ ok tt
    accepted = unfold judge in ground arith

    low : ltb 2 version ≡ false
    low = ground arith

-- After any SQP query of a client (of a 32-bit challenge and a 16-bit version), answered or
-- refused, the same client's next query is refused for want of a challenge.
pub respond_twice :
    (st : Option QueryState) (r s : Readings) (client : Bytes) (c d v w x y : ℕ) (rest more : Bytes)
    (q : QueryBase)
    → c < 2 ^ 32
    → v < 65536
    → d < 2 ^ 32
    → w < 65536
    → (respond st s client
        (query_packet d w y more)
        (respond st r client (query_packet c v x rest) q).0).1
      ≡ err no_challenge
unfolding challenge_matches_for_client judge
respond_twice st r s client c d v w x y rest more q hc hv hd hw =
    rw
      (
        after_query st r client c v x rest q hc hv,
        respond_query st s client d w y more (matched q client c) hd hw,
      )
      (rw (update_self q.challenges client none) refl)

-- A request for a challenge is answered by a zero byte and the challenge, which is stored.
pub respond_challenge :
    (st : Option QueryState) (r : Readings) (client rest : Bytes) (a b c d : ℕ) (q : QueryBase)
    → r.random ≡ some (a, b, c, d)
    → respond st r client (challenge_packet rest) q
      ≡ (generated q r client, ok (0 ∷ be32 (word32 a b c d)))
unfolding respond handle_challenge format
respond_challenge st r client rest a b c d q h =
    rw (within_5_of_5 (length rest), made, wire_write-format encoder-IsAppending)
  where
    made : generate_challenge q r client ≡ (generated q r client, ok (word32 a b c d))
    made = ap (λ o. (generated q r client, o)) (generate_challenge_lem q r client a b c d h).0
