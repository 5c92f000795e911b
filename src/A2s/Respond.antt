-- ===== src/A2s/Respond.antt =====
-- `Respond` of a2s.go on whole requests.
use unity_gaming_services_go.Prelude.{
  ℕ, suc, ◌^◌, ◌<◌, ◌≡◌, ◌≢◌, refl, ap, ◌∙◌, inl, inr, ◌⊎◌, true, false, [], ◌∷◌, ◌++◌, Option,
  some, Outcome, ok, err, Bytes, le32, word32, length, leb, ◌==◌, arith,
}
use unity_gaming_services_go.Proto.Challenge.{
  QueryError, challenge_entry, ChallengeEntry, QueryBase, Readings, generate_challenge,
  challenge_matches_for_client, challenge_mismatch,
}
use unity_gaming_services_go.Proto.Challenge.Laws.{
  matched, generated, generate_challenge_lem, judge_entry,
}
use unity_gaming_services_go.Proto.Wire.{QueryState, little_endian, scalar_bytes}
use unity_gaming_services_go.Proto.Wire.Format.{IsAppending, format, wire_write-format}
use unity_gaming_services_go.A2s.Parse.{NoNull, info_packet, parse-challenge, parse-no_challenge}
use unity_gaming_services_go.A2s.{
  encoder, InfoWireFormat, info_format, info_fields, s2c_challenge_response, parse_info_request,
  handle_info_request, respond,
}

abbrev text : Bytes → Bytes
text s = s ++ 0 ∷ []

pub encoder-IsAppending : IsAppending encoder text (scalar_bytes little_endian)
encoder-IsAppending = record {
  write_string_appends = λ resp s. refl;
  write_appends = λ resp v. refl;
}

-- The bytes of an info response.
unfoldable pub info_bytes : InfoWireFormat → Bytes
info_bytes w = format text (scalar_bytes little_endian) (info_fields w)

-- A request whose payload ends in a challenge, or that has none.
abbrev pub challenge_packet : Bytes → ℕ → Bytes → Bytes
challenge_packet payload c rest = info_packet (payload ++ 0 ∷ (le32 c ++ rest))

within : (n : ℕ) → leb 5 (suc (suc (suc (suc (suc n))))) ≡ true
within n = ground arith

-- A request goes to `handleInfoRequest`.
respond_info :
    (st : Option QueryState) (os : Bytes) (r : Readings) (client rest : Bytes) (q : QueryBase)
    → respond st os r client (info_packet rest) q
      ≡ handle_info_request st os r client (info_packet rest) q
unfolding respond
respond_info st os r client rest q = rw (within (length rest))

asks :
    (st : Option QueryState) (os : Bytes) (r : Readings) (client buf payload : Bytes)
    (q : QueryBase) (a b c d : ℕ)
    → parse_info_request buf ≡ ok (record { payload = payload; challenge = 0 })
    → r.random ≡ some (a, b, c, d)
    → handle_info_request st os r client buf q
      ≡ (generated q r client, ok (s2c_challenge_response ++ le32 (word32 a b c d)))
unfolding handle_info_request format
asks st os r client buf payload q a b c d parsed h =
    rw (parsed, made, wire_write-format encoder-IsAppending)
  where
    made : generate_challenge q r client ≡ (generated q r client, ok (word32 a b c d))
    made = ap (λ o. (generated q r client, o)) (generate_challenge_lem q r client a b c d h).0

-- For a payload without null bytes, when the random source answers: a request without a
-- challenge, and one with the challenge 0, get a new challenge, which is stored.
pub respond_without_challenge :
    (st : Option QueryState) (os : Bytes) (r : Readings) (client payload rest : Bytes)
    (q : QueryBase) (a b c d : ℕ)
    → NoNull payload
    → r.random ≡ some (a, b, c, d)
    → let reply : QueryBase × Outcome QueryError Bytes =
        (generated q r client, ok (s2c_challenge_response ++ le32 (word32 a b c d))) in
      (respond st os r client (info_packet (payload ++ 0 ∷ [])) q ≡ reply)
      × (respond st os r client (challenge_packet payload 0 rest) q ≡ reply)
respond_without_challenge st os r client payload rest q a b c d h hr = (
  respond_info st os r client (payload ++ 0 ∷ []) q
      ∙ asks st os r client _ payload q a b c d (parse-no_challenge payload h).0 hr,
  respond_info st os r client (payload ++ 0 ∷ (le32 0 ++ rest)) q
      ∙ asks st os r client _ payload q a b c d (parse-challenge payload rest 0 h (omega arith)) hr,
)

pub respond_with_challenge :
    (st : Option QueryState) (os : Bytes) (r : Readings) (client payload rest : Bytes)
    (q : QueryBase) (x : ℕ) (e : ChallengeEntry)
    → NoNull payload
    → x < 2 ^ 32
    → x ≢ 0
    → q.challenges client ≡ some (challenge_entry e)
    → ((x ≡ e.value)
        × (respond st os r client (challenge_packet payload x rest) q
            ≡ (matched q client x, ok (info_bytes (info_format st os)))))
      ⊎ ((x ≢ e.value)
          × (respond st os r client (challenge_packet payload x rest) q
              ≡ (matched q client x, err challenge_mismatch)))
unfolding handle_info_request info_bytes challenge_matches_for_client
respond_with_challenge st os r client payload rest q x e h hx nz he = elim (judge_entry e x) [
  | inl (same, j) ↦ inl (
    same,
    respond_info st os r client _ q
        ∙ rw (parsed, nonzero, he, j, wire_write-format encoder-IsAppending),
  )
  | inr (differ, j) ↦ inr (differ, respond_info st os r client _ q ∙ rw (parsed, nonzero, he, j))
]
  where
    parsed :
        parse_info_request (challenge_packet payload x rest)
        ≡ ok (record { payload = payload; challenge = x })
    parsed = parse-challenge payload rest x h hx

    nonzero : (x == 0) ≡ false
    nonzero = ground arith
