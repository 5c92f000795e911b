-- ===== src/Matchmaker/Ticks/Sends.antt =====
-- The requests that one approval sends, whatever is answered.
use unity_gaming_services_go.Prelude.{
  ℕ, ◌+◌, ◌++◌, ◌≤◌, ◌≡◌, ◌⊎◌, refl, sym, ap, ◌∙◌, Bool-cases, inl, inr, List, [], ◌∷◌, All, Option,
  none, some, Outcome, ok, err, panic, or_panic, Bytes, codes, length, length-append, append_assoc,
  append-nil, ◌==◌, arith,
}
use unity_gaming_services_go.Server.Settings.{
  Config, GoError, wrapped, token_fetch, retry, backfill_approve,
}
use unity_gaming_services_go.Matchmaker.{
  WebRequest, WebReply, Web, Traffic, TokenResponse, token_request, approval_request, ◌>>=◌, lift,
  send, close_body, read_token, token_of, judge_reply, sent_wrapped, get_jwt_token,
  approve_backfill_ticket, post_approval, when_allocated, Calls, bind_calls, attempt,
}

-- A request of the loop under a configuration: for the token, or for an approval with some token.
abbrev pub IsFor : Config → WebRequest → Type 0
IsFor c r = (r ≡ token_request c) ⊎ ((token : Bytes) × (r ≡ approval_request c token))

-- From one traffic to another: at most so many requests, each for the configuration.
abbrev pub Grows : Config → ℕ → Traffic → Traffic → Type 0
Grows c n t u =
    (l : List WebRequest) × (u.requests ≡ t.requests ++ l) × All (IsFor c) l × (length l ≤ n)

pub record Sends {A : Type 0} (c : Config) (n : ℕ) (m : Calls A) : Type 0 where
  pub grows : (t : Traffic) → Grows c n t (m t).0

All-append : {A : Type 0} (P : A → Type 0) (xs ys : List A) → All P xs → All P ys → All P (xs ++ ys)
All-append P [] ys h k = k
All-append P (x ∷ xs) ys (p, h) k = (p, All-append P xs ys h k)

pub Grows-trans :
    (c : Config) (n m k : ℕ) (t u v : Traffic)
    → n + m ≤ k
    → Grows c n t u
    → Grows c m u v
    → Grows c k t v
Grows-trans c n m k t u v b (l, e, h, lo) (l', e', h', hi) = (
  l ++ l',
  e' ∙ ap (λ r. r ++ l') e ∙ append_assoc t.requests l l',
  All-append (IsFor c) l l' h h',
  omega (arith, length-append l l'),
)

Grows-same : (c : Config) (n : ℕ) (t u : Traffic) → u.requests ≡ t.requests → Grows c n t u
Grows-same c n t u e = ([], e ∙ sym (append-nil t.requests), tt, omega arith)

module _ (c : Config) where
  bind-Grows :
      {A B : Type 0} (n m : ℕ) (t : Traffic) (p : Traffic × Outcome GoError A) (f : A → Calls B)
      → Grows c n t p.0
      → ((a : A) → Sends c m (f a))
      → Grows c (n + m) t (bind_calls p f).0
  bind-Grows n m t (u, ok a) f h k =
      Grows-trans c n m (n + m) t u (f a u).0 (omega arith) h ((k a).grows u)
  bind-Grows n m t (u, err e) f (l, e', h, lo) k = (l, e', h, omega (arith, lo))
  bind-Grows n m t (u, panic) f (l, e', h, lo) k = (l, e', h, omega (arith, lo))

  bind-Sends :
      {A B : Type 0} (n m : ℕ) (g : Calls A) (f : A → Calls B)
      → Sends c n g
      → ((a : A) → Sends c m (f a))
      → Sends c (n + m) (g >>= f)
  bind-Sends n m g f h k = record { grows = λ t. bind-Grows n m t (g t) f (h.grows t) k }

  lift-Sends : {A : Type 0} (r : Outcome GoError A) → Sends c 0 (lift r)
  lift-Sends r = record { grows = λ t. Grows-same c 0 t t refl }

  close-Sends : Sends c 0 close_body
  close-Sends = record { grows = λ t. Grows-same c 0 t (close_body t).0 refl }

  send-Sends : (web : Web) (r : WebRequest) → IsFor c r → Sends c 1 (send web r)
  send-Sends web r h = record { grows = λ t. (r ∷ [], refl, (h, tt), omega arith) }

  token-Sends : (web : Web) (reply : WebReply) → Sends c 0 (read_token web reply)
  token-Sends web reply = elim (Bool-cases (reply.status_code == 200)) [
    | inl e ↦ rw e (
        bind-Sends {A = Bytes} 0 0 (lift reply.body) _ (lift-Sends reply.body) λ body.
          bind-Sends {A = TokenResponse} 0 0 (lift (web.decode_token body)) _
            (lift-Sends (web.decode_token body)) λ r. lift-Sends (token_of r r.error))
    | inr e ↦ rw e (lift-Sends (err token_fetch))
  ]

  jwt-Sends : (web : Web) → Sends c 1 (get_jwt_token web c)
  unfolding get_jwt_token
  jwt-Sends web =
      let made = web.new_request (codes "GET") (token_request c).url in
      bind-Sends {A = Unit {0}} 0 1 (lift made) _ (lift-Sends made) λ u.
        bind-Sends 1 0 (send web (token_request c)) _ (send-Sends web (token_request c) (inl refl))
          λ resp.
            bind-Sends {A = WebReply} 0 0 (lift (or_panic resp)) _ (lift-Sends (or_panic resp))
              λ reply. bind-Sends 0 0 close_body _ close-Sends λ v. token-Sends web reply

  judge-Sends : (web : Web) (resp : Option WebReply) → Sends c 0 (judge_reply web resp)
  judge-Sends web none = lift-Sends (err backfill_approve)
  judge-Sends web (some reply) = elim (Bool-cases (reply.status_code == 429)) [
    | inl e ↦ rw e (lift-Sends (err retry))
    | inr e ↦ elim (Bool-cases (reply.status_code == 200)) [
      | inl f ↦
          rw (e, f) (decoded (wrapped (codes "error decoding backfill ticket response") reply.body))
      | inr f ↦ rw (e, f) (lift-Sends (err backfill_approve))
    ]
  ]
    where
      decoded :
          (r : Outcome GoError Bytes)
          → Sends c 0 (
              close_body >>= λ u. lift r >>= λ body.
              lift (
                wrapped (codes "error decoding backfill ticket response") (web.decode_ticket body)))
      decoded r = bind-Sends 0 0 close_body _ close-Sends λ u.
          bind-Sends {A = Bytes} 0 0 (lift r) _ (lift-Sends r) λ body.
            lift-Sends
              (wrapped (codes "error decoding backfill ticket response") (web.decode_ticket body))

  wrapped-Sends :
      (web : Web) (r : WebRequest) → IsFor c r → Sends c 1 (λ t. sent_wrapped (send web r t))
  wrapped-Sends web r h = record { grows = λ t. (r ∷ [], refl, (h, tt), omega arith) }

  approval-Sends : (web : Web) (token : Bytes) → Sends c 1 (approve_backfill_ticket web c token)
  unfolding approve_backfill_ticket post_approval
  approval-Sends web token = allocated c.allocated_uuid
    where
      posted : Sends c 1 (post_approval web c token)
      posted =
          let made = web.new_request (codes "POST") (approval_request c token).url in
          bind-Sends {A = Unit {0}} 0 1 (lift made) _ (lift-Sends made) λ u.
            bind-Sends 1 0 (λ t. sent_wrapped (send web (approval_request c token) t)) _
              (wrapped-Sends web (approval_request c token) (inr (token, refl)))
              λ resp. judge-Sends web resp

      allocated : (id : Bytes) → Sends c 1 (when_allocated id (post_approval web c token))
      allocated [] = record { grows = λ t. Grows-same c 1 t t refl }
      allocated (b ∷ id) = posted

  pub attempt-Sends : (web : Web) → Sends c 2 (attempt web c)
  unfolding attempt
  attempt-Sends web =
      bind-Sends 1 1 (get_jwt_token web c) _ (jwt-Sends web) λ token. approval-Sends web token
