-- ===== src/Matchmaker/Approval.antt =====
-- What an approval sends and closes, and what a tick does with its result.
use unity_gaming_services_go.Prelude.{
  ◌+◌, ◌++◌, ◌≡◌, ◌≢◌, refl, ap, ◌∙◌, Bool-cases, inl, inr, List, [], ◌∷◌, false, Option, some,
  Outcome, ok, err, panic, Bytes, codes, length, length-append, append_assoc, ◌==◌, arith,
  ◌>>=◌ as bind,
}
use unity_gaming_services_go.Server.Settings.{
  Config, GoError, wrap, wrapped, retry, backfill_approve, backfill_not_allocated,
}
use unity_gaming_services_go.Server.{Server, push_error}
use unity_gaming_services_go.Matchmaker.{
  BackfillTicket, WebRequest, WebReply, Web, Traffic, token_request, approval_request,
  get_jwt_token, approve_backfill_ticket, post_approval, when_allocated, Calls, bind_calls, attempt,
  keep_alive, settle,
}

-- The token's answer is of status OK and holds this token, and the approval's answer is `reply`.
pub record IsAnswered (web : Web) (c : Config) (t : Traffic) (token : Bytes) (reply : WebReply)
    : Type 0 where
  pub get_made : web.new_request (codes "GET") (token_request c).url ≡ ok tt
  pub post_made : web.new_request (codes "POST") (approval_request c token).url ≡ ok tt
  pub body : Bytes
  pub token_reply :
      web.answer (length t.requests) (token_request c)
      ≡ ok (some (record { status_code = 200; body = ok body }))
  pub token_decoded : web.decode_token body ≡ ok (record { token = token; error = [] })
  pub approval_reply :
      web.answer (length t.requests + 1) (approval_request c token) ≡ ok (some reply)

when_allocated_some : {A : Type 0} (id : Bytes) (k : Calls A) → id ≢ [] → when_allocated id k ≡ k
when_allocated_some [] k h = absurd (h refl)
when_allocated_some (b ∷ id) k h = refl

-- Reading the body and decoding it wrap their errors alike.
wrapped_once :
    (text : Bytes) (u : Traffic) (r : Outcome GoError Bytes)
    (f : Bytes → Outcome GoError (Option BackfillTicket))
    → bind_calls (u, wrapped text r) (λ body v. (v, wrapped text (f body)))
      ≡ (u, wrapped text (bind r f))
wrapped_once text u (ok body) f = refl
wrapped_once text u (err e) f = refl
wrapped_once text u panic f = refl

module _ (web : Web) (c : Config) (t : Traffic) (token : Bytes) (reply : WebReply)
    (h : IsAnswered web c t token reply) where
  after_token : Traffic
  after_token = record { requests = t.requests ++ token_request c ∷ []; closed = t.closed + 1 }

  got : get_jwt_token web c t ≡ (after_token, ok token)
  unfolding get_jwt_token after_token
  got = rw (h.get_made, h.token_reply, h.token_decoded) refl

  abbrev pub asked : List WebRequest
  asked = t.requests ++ token_request c ∷ approval_request c token ∷ []

  asked-after : (t.requests ++ token_request c ∷ []) ++ approval_request c token ∷ [] ≡ asked
  asked-after = append_assoc t.requests (token_request c ∷ []) (approval_request c token ∷ [])

  second : length (t.requests ++ token_request c ∷ []) ≡ length t.requests + 1
  second = length-append t.requests (token_request c ∷ [])

  via : attempt web c t ≡ approve_backfill_ticket web c token after_token
  unfolding attempt
  via = ap (λ p. bind_calls p (approve_backfill_ticket web c)) got

  -- With no allocation nothing but the token is asked for.
  attempt_unallocated :
      c.allocated_uuid ≡ [] → attempt web c t ≡ (after_token, err backfill_not_allocated)
  attempt_unallocated e = via ∙ (unfold approve_backfill_ticket in rw e refl)

  posted :
      c.allocated_uuid ≢ []
      → approve_backfill_ticket web c token after_token ≡ post_approval web c token after_token
  unfolding approve_backfill_ticket
  posted e =
      ap (λ k. k after_token) (when_allocated_some c.allocated_uuid (post_approval web c token) e)

  pub attempt_allocated :
      c.allocated_uuid ≢ []
      → (reply.status_code ≡ 429
          → attempt web c t ≡ (record { requests = asked; closed = t.closed + 1 }, err retry))
        × (reply.status_code ≡ 200
            → attempt web c t ≡ (
              record { requests = asked; closed = t.closed + 1 + 1 },
              wrapped
                  (codes "error decoding backfill ticket response")
                  (bind reply.body web.decode_ticket),
            ))
        × (reply.status_code ≢ 429
            → reply.status_code ≢ 200
            → attempt web c t
              ≡ (record { requests = asked; closed = t.closed + 1 }, err backfill_approve))
  unfolding post_approval after_token
  attempt_allocated e = (
    λ s. via ∙ posted e ∙ rw (h.post_made, second, h.approval_reply, asked-after, s) refl,
    λ s.
        via
        ∙ posted e
        ∙ rw (h.post_made, second, h.approval_reply, asked-after, s)
            (wrapped_once (codes "error decoding backfill ticket response") _ reply.body
              web.decode_ticket),
    λ n m.
        via
        ∙ posted e
        ∙ rw (h.post_made, second, h.approval_reply, asked-after, busy n, fine m) refl,
  )
    where
      busy : reply.status_code ≢ 429 → (reply.status_code == 429) ≡ false
      busy n = ground arith

      fine : reply.status_code ≢ 200 → (reply.status_code == 200) ≡ false
      fine m = ground arith

  -- Whatever the answer's status.
  attempt-requests : c.allocated_uuid ≢ [] → (attempt web c t).0.requests ≡ asked
  attempt-requests e =
      let (busy, fine, other) = attempt_allocated e in
      elim (Bool-cases (reply.status_code == 429)) [
        | inl b ↦ ap (λ p. p.0.requests) (busy (ground arith))
        | inr n ↦ elim (Bool-cases (reply.status_code == 200)) [
          | inl f ↦ ap (λ p. p.0.requests) (fine (ground arith))
          | inr m ↦ ap (λ p. p.0.requests) (other (ground arith) (ground arith))
        ]
      ]

settle-traffic :
    (s : Server) (p : Traffic × Outcome GoError (Option BackfillTicket)) → (settle s p).1 ≡ p.0
settle-traffic s (t, ok x) = refl
settle-traffic s (t, err e) = refl
settle-traffic s (t, panic) = refl

-- The traffic behind an approval that was told to retry.
abbrev pub told_to_retry :
    (web : Web) (c : Config) (t : Traffic) (token : Bytes) (reply : WebReply)
    → IsAnswered web c t token reply
    → Traffic
told_to_retry web c t token reply h = record {
  requests = asked web c t token reply h;
  closed = t.closed + 1;
}

-- If, on a configuration with an allocation, an approval is told to retry, the same tick makes a
-- second one, with its own token: four requests in all. If the second is answered with 200 and a
-- ticket, the server stays as it is; if it is told to retry too, that error is pushed.
pub keep_alive_retries :
    (web : Web) (s : Server) (t : Traffic) (token fresh : Bytes) (reply again : WebReply)
    (h : IsAnswered web s.current_config t token reply)
    (k : IsAnswered web s.current_config
      (told_to_retry web s.current_config t token reply h)
      fresh
      again)
    → s.current_config.allocated_uuid ≢ []
    → reply.status_code ≡ 429
    → ((ticket : Option BackfillTicket)
        → again.status_code ≡ 200
        → bind again.body web.decode_ticket ≡ ok ticket
        → (keep_alive web s t).0 ≡ s)
      × (again.status_code ≡ 429
          → (keep_alive web s t).0
            ≡ push_error (wrap (codes "error approving backfill ticket") retry) s)
      × ((keep_alive web s t).1.requests
          ≡ t.requests
            ++ token_request s.current_config
              ∷ approval_request s.current_config token
              ∷ token_request s.current_config
              ∷ approval_request s.current_config fresh
              ∷ [])
unfolding keep_alive
keep_alive_retries web s t token fresh reply again h k a r = (
  λ ticket ok_again decoded.
      rw first
        (rw ((attempt_allocated web s.current_config _ fresh again k a).1 ok_again, decoded) refl),
  λ busy. rw first (rw ((attempt_allocated web s.current_config _ fresh again k a).0 busy) refl),
  rw first (
      ap (λ u. u.requests) (settle-traffic s (attempt web s.current_config after_first))
      ∙ attempt-requests web s.current_config after_first fresh again k a
      ∙ append_assoc t.requests _ _),
)
  where
    after_first : Traffic
    after_first = told_to_retry web s.current_config t token reply h

    first : attempt web s.current_config t ≡ (after_first, err retry)
    first = (attempt_allocated web s.current_config t token reply h a).0 r
