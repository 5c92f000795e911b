-- ===== src/Matchmaker/Faults.antt =====
-- A tick of `keepAliveBackfill` when nothing it calls panics.
use unity_gaming_services_go.Prelude.{
  ℕ, ◌≡◌, ◌≢◌, refl, inl, inr, [], ◌∷◌, Bool-cases, true, Option, none, some, Outcome, ok, err,
  panic, or_panic, Bytes, codes, ◌==◌,
}
use unity_gaming_services_go.Server.Settings.{
  Config, GoError, wrapped, token_fetch, retry, backfill_approve,
}
use unity_gaming_services_go.Server.{Server}
use unity_gaming_services_go.Matchmaker.{
  BackfillTicket, WebRequest, WebReply, Web, Traffic, TokenResponse, token_request,
  approval_request, ◌>>=◌, lift, send, close_body, read_token, token_of, judge_reply, sent_wrapped,
  get_jwt_token, approve_backfill_ticket, post_approval, when_allocated, Calls, bind_calls, attempt,
  keep_alive, settle, settle_first, is_retry,
}

-- Packages net/http and encoding/json do not panic, and an answer without an error is there.
pub record IsSound (web : Web) : Type 0 where
  pub makes : (method url : Bytes) → web.new_request method url ≢ panic
  pub answers : (n : ℕ) (r : WebRequest) → web.answer n r ≢ panic
  pub replies : (n : ℕ) (r : WebRequest) → web.answer n r ≢ ok none
  pub bodies :
      (n : ℕ) (r : WebRequest) (reply : WebReply)
      → web.answer n r ≡ ok (some reply)
      → reply.body ≢ panic
  pub tokens : (body : Bytes) → web.decode_token body ≢ panic
  pub tickets : (body : Bytes) → web.decode_ticket body ≢ panic

-- A call that never panics.
record Safe {A : Type 0} (m : Calls A) : Type 0 where
  safe : (t : Traffic) → (m t).1 ≢ panic

bind_calls-Safe :
    {A B : Type 0} (p : Traffic × Outcome GoError A) (f : A → Calls B)
    → p.1 ≢ panic
    → ((a : A) → p.1 ≡ ok a → Safe (f a))
    → (bind_calls p f).1 ≢ panic
bind_calls-Safe (t, ok a) f h k = (k a refl).safe t
bind_calls-Safe (t, err e) f h k = λ x. cc
bind_calls-Safe (t, panic) f h k = λ x. h refl

lift-Safe : {A : Type 0} (r : Outcome GoError A) → r ≢ panic → Safe (lift r)
lift-Safe r h = record { safe = λ t. h }

bind-Safe :
    {A B : Type 0} (m : Calls A) (f : A → Calls B)
    → Safe m
    → ((a : A) → Safe (f a))
    → Safe (m >>= f)
bind-Safe m f h k = record { safe = λ t. bind_calls-Safe (m t) f (h.safe t) (λ a e. k a) }

wrapped-ne-panic :
    {A : Type 0} (text : Bytes) (r : Outcome GoError A) → r ≢ panic → wrapped text r ≢ panic
wrapped-ne-panic text (ok a) h = λ x. cc
wrapped-ne-panic text (err e) h = λ x. cc
wrapped-ne-panic text panic h = λ x. h refl

token_of-ne-panic : (r : TokenResponse) (e : Bytes) → token_of r e ≢ panic
token_of-ne-panic r [] = λ x. cc
token_of-ne-panic r (b ∷ e) = λ x. cc

wrapped-ok :
    {A : Type 0} (text : Bytes) (r : Outcome GoError A) (a : A) → wrapped text r ≡ ok a → r ≡ ok a
wrapped-ok text (ok b) a e = e
wrapped-ok text (err x) a e = absurd (cc)
wrapped-ok text panic a e = absurd (cc)

refused-Safe : {A : Type 0} (e : GoError) → Safe {A = A} (lift (err e))
refused-Safe e = record { safe = λ t x. cc }

close_body-Safe : Safe close_body
close_body-Safe = record { safe = λ t x. cc }

module _ (web : Web) (sound : IsSound web) where
  read_token-Safe : (reply : WebReply) → reply.body ≢ panic → Safe (read_token web reply)
  read_token-Safe reply h = elim (Bool-cases (reply.status_code == 200)) [
    | inl fine ↦ rw fine (
        bind-Safe (lift reply.body) _ (lift-Safe reply.body h) λ body.
          bind-Safe (lift (web.decode_token body)) _ (lift-Safe _ (sound.tokens body))
            λ r. lift-Safe (token_of r r.error) (token_of-ne-panic r r.error))
    | inr other ↦ rw other (refused-Safe token_fetch)
  ]

  token_reply-Safe :
      (n : ℕ) (r : WebRequest) (resp : Option WebReply)
      → web.answer n r ≡ ok resp
      → Safe (lift (or_panic resp) >>= λ reply. close_body >>= λ u. read_token web reply)
  token_reply-Safe n r none e = absurd (sound.replies n r e)
  token_reply-Safe n r (some reply) e = record {
    safe =
        (bind-Safe close_body (λ u. read_token web reply) close_body-Safe
          (λ u. read_token-Safe reply (sound.bodies n r reply e))).safe;
  }

  get_jwt_token-Safe : (c : Config) → Safe (get_jwt_token web c)
  unfolding get_jwt_token
  get_jwt_token-Safe c =
      bind-Safe (lift (web.new_request (codes "GET") (token_request c).url)) _
        (lift-Safe _ (sound.makes _ _))
        λ u. record {
          safe = λ t.
              bind_calls-Safe (send web (token_request c) t) _ (sound.answers _ _)
                (λ resp e. token_reply-Safe _ _ resp e);
        }

  judge_reply-Safe :
      (n : ℕ) (r : WebRequest) (resp : Option WebReply)
      → web.answer n r ≡ ok resp
      → Safe (judge_reply web resp)
  judge_reply-Safe n r none e = refused-Safe backfill_approve
  judge_reply-Safe n r (some reply) e = elim (Bool-cases (reply.status_code == 429)) [
    | inl later ↦ rw later (refused-Safe retry)
    | inr now ↦ elim (Bool-cases (reply.status_code == 200)) [
      | inl fine ↦
          rw (now, fine)
            (bind-Safe close_body _ close_body-Safe λ u.
              bind-Safe
                (lift (wrapped (codes "error decoding backfill ticket response") reply.body)) _
                (lift-Safe _ (wrapped-ne-panic _ reply.body (sound.bodies n r reply e)))
                λ body. lift-Safe _ (
                  wrapped-ne-panic (codes "error decoding backfill ticket response")
                    (web.decode_ticket body) (sound.tickets body)))
      | inr other ↦ rw (now, other) (refused-Safe backfill_approve)
    ]
  ]

  post_approval-Safe : (c : Config) (token : Bytes) → Safe (post_approval web c token)
  unfolding post_approval
  post_approval-Safe c token =
      bind-Safe (lift (web.new_request (codes "POST") (approval_request c token).url)) _
        (lift-Safe _ (sound.makes _ _))
        λ u. record {
          safe = λ t.
              bind_calls-Safe (sent_wrapped (send web (approval_request c token) t)) _
                (wrapped-ne-panic _ _ (sound.answers _ _))
                (λ resp e. judge_reply-Safe _ _ resp (wrapped-ok _ _ resp e));
        }

  allocated-Safe : {A : Type 0} (id : Bytes) (m : Calls A) → Safe m → Safe (when_allocated id m)
  allocated-Safe [] m h = refused-Safe _
  allocated-Safe (b ∷ id) m h = h

  attempt-Safe : (c : Config) → Safe (attempt web c)
  unfolding attempt approve_backfill_ticket
  attempt-Safe c = bind-Safe (get_jwt_token web c) _ (get_jwt_token-Safe c) λ token.
      allocated-Safe c.allocated_uuid (post_approval web c token) (post_approval-Safe c token)

  settle-goes :
      (s : Server) (p : Traffic × Outcome GoError (Option BackfillTicket))
      → p.1 ≢ panic
      → (settle s p).2 ≡ true
  settle-goes s (t, ok x) h = refl
  settle-goes s (t, err e) h = refl
  settle-goes s (t, panic) h = absurd (h refl)

  settle_first-goes :
      (s : Server) (p : Traffic × Outcome GoError (Option BackfillTicket))
      → p.1 ≢ panic
      → (settle_first web s p).2 ≡ true
  settle_first-goes s (t, ok x) h = refl
  settle_first-goes s (t, panic) h = absurd (h refl)
  settle_first-goes s (t, err e) h = elim (Bool-cases (is_retry e)) [
    | inl again ↦
        rw again
          (settle-goes s (attempt web s.current_config t) ((attempt-Safe s.current_config).safe t))
    | inr once ↦ rw once refl
  ]

  -- A tick ends without a panic.
  pub keep_alive-goes : (s : Server) (t : Traffic) → (keep_alive web s t).2 ≡ true
  unfolding keep_alive
  keep_alive-goes s t =
      settle_first-goes s (attempt web s.current_config t) ((attempt-Safe s.current_config).safe t)
