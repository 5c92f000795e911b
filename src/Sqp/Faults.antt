-- ===== src/Sqp/Faults.antt =====
-- Where `Respond` of sqp.go panics, and where it cannot.
use unity_gaming_services_go.Prelude.{
  ℕ, ◌^◌, ◌≤◌, ◌<◌, ◌≡◌, ◌≢◌, refl, ap, ◌↔◌, dec_lt, inl, inr, true, [], ◌∷◌, Option, none, some,
  Outcome, ok, err, panic, Bytes, word16, word32, ltb, ◌==◌, Bool-cases, length, arith, bytes_eq,
}
use unity_gaming_services_go.Proto.Challenge.{
  QueryError, Stored, challenge_entry, other, ChallengeEntry, QueryBase, Readings,
  generate_challenge, challenge_matches_for_client, judge,
}
use unity_gaming_services_go.Proto.Wire.{QueryState}
use unity_gaming_services_go.Proto.Wire.Format.{wire_write-format}
use unity_gaming_services_go.Proto.Responder.{Query, continue}
use unity_gaming_services_go.Sqp.Info.{query_state_to_metrics}
use unity_gaming_services_go.Sqp.Sizes.{IsWindow, encoder-IsAppending}
use unity_gaming_services_go.Sqp.Layout.{answer-response}
use unity_gaming_services_go.Sqp.Respond.{
  at_least_8, within_5_of_8, within_7_of_8, within_5_of_5, query_packet, respond_query,
}
use unity_gaming_services_go.Sqp.{respond, handle_challenge, handle_query, answer, wants_metrics}

pub judge-ne-panic : (o : Option Stored) (x : ℕ) → judge o x ≢ panic
unfolding judge
judge-ne-panic none x = λ e. cc
judge-ne-panic (some other) x = λ e. cc
judge-ne-panic (some (challenge_entry e)) x = λ h. ground arith

pub continue-ne-panic :
    {A B : Type 0} (m : QueryBase × Outcome QueryError A) (f : A → Query B)
    → m.1 ≢ panic
    → ((a : A) (q : QueryBase) → (f a q).1 ≢ panic)
    → (continue m f).1 ≢ panic
continue-ne-panic (q, ok a) f h k = k a q
continue-ne-panic (q, err e) f h k = λ p. cc
continue-ne-panic (q, panic) f h k = λ p. h refl

pub generate-ne-panic :
    (q : QueryBase) (r : Readings) (client : Bytes) → (generate_challenge q r client).1 ≢ panic
unfolding generate_challenge
generate-ne-panic q r client = λ h. ground arith

handle_challenge-ne-panic :
    (r : Readings) (client : Bytes) (q : QueryBase) → (handle_challenge r client q).1 ≢ panic
unfolding handle_challenge
handle_challenge-ne-panic r client q =
    continue-ne-panic (generate_challenge q r client) _ (generate-ne-panic q r client)
      (λ v q'. rw (wire_write-format encoder-IsAppending) (λ e. cc))

answered :
    (qs : QueryState) (challenge version chunks : ℕ)
    → IsWindow qs.metrics
    → answer (some qs) challenge version chunks ≢ panic
answered qs challenge version chunks h =
    rw (answer-response qs challenge version chunks h) (λ e. cc)

handle_query-ne-panic :
    (qs : QueryState) (client buf : Bytes) (q : QueryBase)
    → IsWindow qs.metrics
    → (handle_query (some qs) client buf q).1 ≢ panic
unfolding handle_query
handle_query-ne-panic qs client (a ∷ b ∷ c ∷ d ∷ e ∷ f ∷ g ∷ h ∷ rest) q w =
    rw (at_least_8 (length rest), within_5_of_8 (length rest), within_7_of_8 (length rest))
      (continue-ne-panic (challenge_matches_for_client q client (word32 b c d e)) _ checked (λ u q'.
        elim (Bool-cases (ltb 2 (word16 f g))) [
          | inl new ↦ rw new (λ p. cc)
          | inr old ↦ rw old (answered qs (word32 b c d e) (word16 f g) h w)
        ]))
  where
    checked : (challenge_matches_for_client q client (word32 b c d e)).1 ≢ panic
    checked =
        unfold challenge_matches_for_client in judge-ne-panic (q.challenges client) (word32 b c d e)
handle_query-ne-panic qs client _ q w = λ p. cc

-- With a state, the responder does not panic on any buffer of five bytes or more.
pub respond-ne-panic :
    (qs : QueryState) (r : Readings) (client buf : Bytes) (q : QueryBase)
    → IsWindow qs.metrics
    → 5 ≤ length buf
    → (respond (some qs) r client buf q).1 ≢ panic
unfolding respond
respond-ne-panic qs r client (a ∷ b ∷ c ∷ d ∷ e ∷ rest) q w h =
    elim (Bool-cases (bytes_eq (a ∷ b ∷ c ∷ d ∷ e ∷ []) (0 ∷ 0 ∷ 0 ∷ 0 ∷ 0 ∷ []))) [
      | inl asks ↦ rw (within_5_of_5 (length rest), asks) (handle_challenge-ne-panic r client q)
      | inr no_ask ↦ elim (Bool-cases (a == 1)) [
        | inl queries ↦
            rw (within_5_of_5 (length rest), no_ask, queries)
              (handle_query-ne-panic qs client (a ∷ b ∷ c ∷ d ∷ e ∷ rest) q w)
        | inr neither ↦ rw (within_5_of_5 (length rest), no_ask, neither) (λ p. cc)
      ]
    ]
respond-ne-panic qs r client _ q w h = absurd (omega arith)

-- A short buffer panics before anything is changed.
pub respond-short :
    (st : Option QueryState) (r : Readings) (client buf : Bytes) (q : QueryBase)
    → length buf < 5
    → respond st r client buf q ≡ (q, panic)
unfolding respond
respond-short st r client [] q h = refl
respond-short st r client (a ∷ []) q h = refl
respond-short st r client (a ∷ b ∷ []) q h = refl
respond-short st r client (a ∷ b ∷ c ∷ []) q h = refl
respond-short st r client (a ∷ b ∷ c ∷ d ∷ []) q h = refl
respond-short st r client (a ∷ b ∷ c ∷ d ∷ e ∷ rest) q h = absurd (omega arith)

-- With a state whose metrics lie within their array, Respond of the SQP responder panics exactly
-- on the buffers of fewer than five bytes.
pub respond-panics_iff :
    (qs : QueryState) (r : Readings) (client buf : Bytes) (q : QueryBase)
    → IsWindow qs.metrics
    → ((respond (some qs) r client buf q).1 ≡ panic) ↔ (length buf < 5)
respond-panics_iff qs r client buf q w = (
  λ p. elim (dec_lt (length buf) 5) [
    | yes short ↦ short
    | no long ↦ absurd (respond-ne-panic qs r client buf q w (omega (arith, long)) p)
  ],
  λ short. ap (λ x. x.1) (respond-short (some qs) r client buf q short),
)

-- For a responder without a state and a client with an entry of 32 bits: a query with the entry's
-- value and version 1 does not panic, but one with version 2 that wants metrics does.
pub nil_state :
    (r : Readings) (client rest : Bytes) (q : QueryBase) (e : ChallengeEntry) (chunks : ℕ)
    → q.challenges client ≡ some (challenge_entry e)
    → e.value < 2 ^ 32
    → ((respond none r client (query_packet e.value 1 chunks rest) q).1 ≢ panic)
      × (wants_metrics chunks ≡ true
          → (respond none r client (query_packet e.value 2 chunks rest) q).1 ≡ panic)
unfolding challenge_matches_for_client answer query_state_to_metrics
nil_state r client rest q e chunks he hv = (
  rw (respond_query none r client e.value 1 chunks rest q hv (omega arith))
      (rw (he, accepted) (rw (wire_write-format encoder-IsAppending) (λ p. cc))),
  λ hm.
      rw (respond_query none r client e.value 2 chunks rest q hv (omega arith))
        (rw (he, accepted, hm)),
)
  where
    accepted : judge (some (challenge_entry e)) e.value ≡ ok tt
    accepted = unfold judge in ground arith
