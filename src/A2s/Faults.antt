-- ===== src/A2s/Faults.antt =====
-- The panics that `Respond` of a2s.go could meet.
use unity_gaming_services_go.Prelude.{
  ℕ, suc, ◌-◌, ◌≤◌, ◌≢◌, refl, inl, inr, Bool, Bool-cases, true, false, [], ◌∷◌, Option, Outcome,
  ok, err, panic, ◌>>=◌, Bytes, ◌==◌, length, drop, arith, bytes_eq, if◌then◌else◌,
}
use unity_gaming_services_go.Proto.Challenge.{
  QueryError, QueryBase, Readings, generate_challenge, challenge_matches_for_client,
}
use unity_gaming_services_go.Proto.Wire.{QueryState}
use unity_gaming_services_go.Proto.Wire.Format.{wire_write-format}
use unity_gaming_services_go.Sqp.Faults.{judge-ne-panic, continue-ne-panic, generate-ne-panic}
use unity_gaming_services_go.A2s.Parse.{within, whole}
use unity_gaming_services_go.A2s.Respond.{encoder-IsAppending}
use unity_gaming_services_go.A2s.{
  InfoRequest, a2s_info_request, le_uint32, read_payload, read_full, scan, parse_info_request,
  reply_fields, handle_info_request, respond,
}

bind-ne-panic :
    {A B : Type 0} (r : Outcome QueryError A) (f : A → Outcome QueryError B)
    → r ≢ panic
    → ((a : A) → f a ≢ panic)
    → (r >>= f) ≢ panic
bind-ne-panic (ok a) f h k = k a
bind-ne-panic (err e) f h k = λ p. cc
bind-ne-panic panic f h k = λ p. h refl

le_uint32-ne-panic : (xs : Bytes) → le_uint32 xs ≢ panic
unfolding le_uint32
le_uint32-ne-panic (a ∷ b ∷ c ∷ d ∷ rest) = λ p. cc
le_uint32-ne-panic _ = λ p. cc

read_payload-ne-panic : (l : ℕ) (buf : Bytes) → read_payload l buf ≢ panic
unfolding read_payload read_full
read_payload-ne-panic l buf = λ p. ground arith

-- What is left of `parseInfoRequest` once the payload is read.
abbrev request_of : Bool → Bytes × Bytes → Outcome QueryError InfoRequest
request_of true p = ok (record { payload = p.0; challenge = 0 })
request_of false p = le_uint32 (drop 1 p.1) >>= λ c. ok (record { payload = p.0; challenge = c })

request-ne-panic : (ends : Bool) (p : Bytes × Bytes) → request_of ends p ≢ panic
request-ne-panic true p = λ e. cc
request-ne-panic false p =
    bind-ne-panic (le_uint32 (drop 1 p.1)) _ (le_uint32-ne-panic (drop 1 p.1)) (λ c e. cc)

read-ne-panic :
    (l : ℕ) (rest : Bytes) (ends : Bool)
    → (read_payload l rest >>= λ p. if ends then request_of true p else request_of false p) ≢ panic
read-ne-panic l rest true =
    bind-ne-panic (read_payload l rest) _ (read_payload-ne-panic l rest) (request-ne-panic true)
read-ne-panic l rest false =
    bind-ne-panic (read_payload l rest) _ (read_payload-ne-panic l rest) (request-ne-panic false)

parse-ne-panic :
    (a b c d e : ℕ) (rest : Bytes) → parse_info_request (a ∷ b ∷ c ∷ d ∷ e ∷ rest) ≢ panic
unfolding parse_info_request
parse-ne-panic a b c d e rest =
    elim (Bool-cases (bytes_eq (a ∷ b ∷ c ∷ d ∷ e ∷ []) a2s_info_request)) [
      | inl info ↦
          rw (within rest, info, whole rest)
            (read-ne-panic
              (scan (a ∷ b ∷ c ∷ d ∷ e ∷ rest) (suc (suc (suc (suc (suc (length rest)))))) 5 - 5) _
              _)
      | inr other ↦ rw (within rest, other) (λ p. cc)
    ]

reply_fields-ne-panic :
    (st : Option QueryState) (os : Bytes) (r : Readings) (client : Bytes) (challenge : ℕ)
    (q : QueryBase)
    → (reply_fields st os r client challenge q).1 ≢ panic
unfolding reply_fields
reply_fields-ne-panic st os r client challenge q = elim (Bool-cases (challenge == 0)) [
  | inl asks ↦ rw asks (
      continue-ne-panic (generate_challenge q r client) _ (generate-ne-panic q r client)
        (λ v q' e. cc))
  | inr answers ↦ rw answers (
      continue-ne-panic (challenge_matches_for_client q client challenge) _
        (unfold challenge_matches_for_client in judge-ne-panic (q.challenges client) challenge)
        (λ u q' e. cc))
]

-- With or without a state, the responder does not panic on any buffer of five bytes or more.
pub respond-ne-panic :
    (st : Option QueryState) (os : Bytes) (r : Readings) (client buf : Bytes) (q : QueryBase)
    → 5 ≤ length buf
    → (respond st os r client buf q).1 ≢ panic
unfolding respond handle_info_request
respond-ne-panic st os r client (a ∷ b ∷ c ∷ d ∷ e ∷ rest) q h =
    elim (Bool-cases (bytes_eq (a ∷ b ∷ c ∷ d ∷ e ∷ []) a2s_info_request)) [
      | inl info ↦
          rw (within rest, info)
            (continue-ne-panic (q, parse_info_request (a ∷ b ∷ c ∷ d ∷ e ∷ rest)) _
              (parse-ne-panic a b c d e rest)
              (λ i q'.
                continue-ne-panic (reply_fields st os r client i.challenge q') _
                  (reply_fields-ne-panic st os r client i.challenge q')
                  (λ f q''. rw (wire_write-format encoder-IsAppending) (λ p. cc))))
      | inr other ↦ rw (within rest, other) (λ p. cc)
    ]
respond-ne-panic st os r client _ q h = absurd (omega arith)
