-- ===== src/Matchmaker.antt =====
-- matchmaker/server: a game server that keeps its backfill ticket alive (server.go, backfill.go,
-- backfill_internal.go).
pub mod Approval
pub mod Service
pub mod Ticks
pub mod Faults
pub mod Running
use unity_gaming_services_go.Prelude.{
  ℕ, ◌+◌, ◌++◌, List, [], ◌∷◌, Bool, true, false, ◌||◌, Option, none, some, Outcome, ok, err, panic,
  or_panic, Bytes, codes, bytes_eq, length, ◌==◌, if◌then◌else◌,
}
use unity_gaming_services_go.Server.Settings.{
  Config, GoError, wrap, wrapped, token_fetch, retry, backfill_approve, backfill_not_allocated,
}
use unity_gaming_services_go.Server.{Server, push_error}

-- A float64 is its bit pattern.
pub record BackfillTicket : Type 0 where
  pub id : Bytes
  pub connection : Bytes
  pub attributes : Bytes → Option ℕ

pub record TokenResponse : Type 0 where
  pub token : Bytes
  pub error : Bytes

-- `authorization` is that header, empty where the code sets none.
pub record WebRequest : Type 0 where
  pub method : Bytes
  pub url : Bytes
  pub authorization : Bytes

pub record WebReply : Type 0 where
  pub status_code : ℕ
  pub body : Outcome GoError Bytes

-- Packages net/http and encoding/json: whether a request can be made, the answer to the request
-- that is sent after so many others, and the messages in the bodies.
pub record Web : Type 0 where
  pub new_request : Bytes → Bytes → Outcome GoError (Unit {0})
  pub answer : ℕ → WebRequest → Outcome GoError (Option WebReply)
  pub decode_token : Bytes → Outcome GoError TokenResponse
  pub decode_ticket : Bytes → Outcome GoError (Option BackfillTicket)

-- The requests sent, in order, and how many bodies of answers have been closed.
pub record Traffic : Type 0 where
  pub requests : List WebRequest
  pub closed : ℕ

abbrev pub Calls : Type 0 → Type 0
Calls A = Traffic → Traffic × Outcome GoError A

abbrev pub bind_calls :
    {A B : Type 0} → Traffic × Outcome GoError A → (A → Calls B) → Traffic × Outcome GoError B
bind_calls (t, ok a) f = f a t
bind_calls (t, err e) f = (t, err e)
bind_calls (t, panic) f = (t, panic)

infixl 5 ◌>>=◌ ◌>>◌
abbrev pub ◌>>=◌ : {A B : Type 0} → Calls A → (A → Calls B) → Calls B
◌>>=◌ m f t = bind_calls (m t) f

abbrev pub ◌>>◌ : {B : Type 0} → Calls (Unit {0}) → Calls B → Calls B
m >> k = m >>= λ u. k

abbrev pub lift : {A : Type 0} → Outcome GoError A → Calls A
lift r t = (t, r)

-- `s.httpClient.Do`
abbrev pub send : Web → WebRequest → Calls (Option WebReply)
send web req t =
    (record t { requests = t.requests ++ req ∷ [] }, web.answer (length t.requests) req)

-- `resp.Body.Close`, deferred by the code to its return.
abbrev pub close_body : Calls (Unit {0})
close_body t = (record t { closed = t.closed + 1 }, ok tt)

abbrev pub token_request : Config → WebRequest
token_request c = record {
  method = codes "GET";
  url = c.local_proxy_url ++ codes "/token";
  authorization = [];
}

abbrev pub token_of : TokenResponse → Bytes → Outcome GoError Bytes
token_of r [] = ok r.token
token_of r (b ∷ e) = err token_fetch

abbrev pub read_token : Web → WebReply → Calls Bytes
read_token web reply =
    if reply.status_code == 200
    then (do body ← lift reply.body; r ← lift (web.decode_token body); lift (token_of r r.error))
    else lift (err token_fetch)

unfoldable pub get_jwt_token : Web → Config → Calls Bytes
get_jwt_token web c = do
  lift (web.new_request (codes "GET") (token_request c).url)
  resp ← send web (token_request c)
  reply ← lift (or_panic resp)
  close_body
  read_token web reply

abbrev pub default_matchmaker_url : Bytes
default_matchmaker_url = codes "https://matchmaker.services.api.unity.com"

abbrev url_or_default : Option Bytes → Bytes
url_or_default none = default_matchmaker_url
url_or_default (some []) = default_matchmaker_url
url_or_default (some (b ∷ u)) = b ∷ u

unfoldable pub matchmaker_url : Config → Bytes
matchmaker_url c = url_or_default (c.extra (codes "matchmakerUrl"))

unfoldable pub approval_request : Config → Bytes → WebRequest
unfolding matchmaker_url
approval_request c token = record {
  method = codes "POST";
  url = matchmaker_url c ++ (codes "/v2/backfill/" ++ (c.allocated_uuid ++ codes "/approvals"));
  authorization = codes "Bearer " ++ token;
}

-- The body of an answer other than OK is left open.
abbrev pub judge_reply : Web → Option WebReply → Calls (Option BackfillTicket)
judge_reply web none = lift (err backfill_approve)
judge_reply web (some reply) =
    if reply.status_code == 429
    then lift (err retry)
    else if reply.status_code == 200
    then (do
      close_body
      body ← lift (wrapped (codes "error decoding backfill ticket response") reply.body)
      lift (wrapped (codes "error decoding backfill ticket response") (web.decode_ticket body)))
    else lift (err backfill_approve)

abbrev pub sent_wrapped :
    Traffic × Outcome GoError (Option WebReply) → Traffic × Outcome GoError (Option WebReply)
sent_wrapped (t, r) = (t, wrapped (codes "error making request to matchmaker") r)

abbrev pub when_allocated : {A : Type 0} → Bytes → Calls A → Calls A
when_allocated [] k = lift (err backfill_not_allocated)
when_allocated (b ∷ id) k = k

-- `approveBackfillTicket` of an allocated server.
unfoldable pub post_approval : Web → Config → Bytes → Calls (Option BackfillTicket)
post_approval web c token = do
  lift (web.new_request (codes "POST") (approval_request c token).url)
  resp ← (λ t. sent_wrapped (send web (approval_request c token) t))
  judge_reply web resp

unfoldable pub approve_backfill_ticket : Web → Config → Bytes → Calls (Option BackfillTicket)
approve_backfill_ticket web c token = when_allocated c.allocated_uuid (post_approval web c token)

-- `s.wrapWithConfigAndJWT(s.approveBackfillTicket)`
unfoldable pub attempt : Web → Config → Calls (Option BackfillTicket)
unfolding get_jwt_token approve_backfill_ticket
attempt web c = do token ← get_jwt_token web c; approve_backfill_ticket web c token

-- errors.Is(err, errRetry)
abbrev pub is_retry : GoError → Bool
is_retry retry = true
is_retry (wrap text e) = is_retry e
is_retry _ = false

-- A panic of the loop's goroutine ends the process: `false`.
abbrev pub settle :
    Server → Traffic × Outcome GoError (Option BackfillTicket) → Server × Traffic × Bool
settle s (t, ok ticket) = (s, t, true)
settle s (t, err e) = (push_error (wrap (codes "error approving backfill ticket") e) s, t, true)
settle s (t, panic) = (s, t, false)

abbrev pub settle_first :
    Web → Server → Traffic × Outcome GoError (Option BackfillTicket) → Server × Traffic × Bool
settle_first web s (t, ok ticket) = settle s (t, ok ticket)
settle_first web s (t, err e) =
    if is_retry e then settle s (attempt web s.current_config t) else settle s (t, err e)
settle_first web s (t, panic) = settle s (t, panic)

-- One tick of `keepAliveBackfill`: a first attempt that is told to retry is followed by a second.
unfoldable pub keep_alive : Web → Server → Traffic → Server × Traffic × Bool
keep_alive web s t = settle_first web s (attempt web s.current_config t)

-- strconv.ParseBool, false on an error.
abbrev parse_bool : Bytes → Bool
parse_bool s =
    bytes_eq s (codes "1")
    || (bytes_eq s (codes "t")
        || (bytes_eq s (codes "T")
            || (bytes_eq s (codes "true")
                || (bytes_eq s (codes "TRUE") || bytes_eq s (codes "True")))))

abbrev value_or_empty : Option Bytes → Bytes
value_or_empty none = []
value_or_empty (some v) = v

unfoldable pub backfill_enabled : Config → Bool
backfill_enabled c = parse_bool (value_or_empty (c.extra (codes "enableBackfill")))
