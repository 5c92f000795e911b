-- ===== src/Server/Actions/Guards.antt =====
-- Which calls of the user reach the proxy, and as which request.
use unity_gaming_services_go.Prelude.{
  ◌≡◌, refl, ap, ◌∙◌, [], ◌∷◌, true, Option, none, some, Outcome, ok, err, Bytes, codes,
}
use unity_gaming_services_go.Server.Settings.{
  GoError, operation_not_applicable, nil_context, nil_args, not_allocated,
}
use unity_gaming_services_go.Server.{Server, ServerType, allocation, reservation}
use unity_gaming_services_go.Server.Actions.{
  Context, nil_ctx, background, reserve, unreserve, hold, get_hold_status, release,
  ready_for_players,
}
use unity_gaming_services_go.LocalProxy.{Client}
use unity_gaming_services_go.LocalProxy.Requests.{
  HoldRequest, HoldStatus, ReserveRequest, ReserveResponse, Response, Http, Sent, request,
  server_url, patch_allocation, hold_self, hold_status, release_self, reserve_self, unreserve_self,
}
use unity_gaming_services_go.LocalProxy.Replies.{
  Endpoint, patch_endpoint, hold_endpoint, status_endpoint, release_endpoint, reserve_endpoint,
  unreserve_endpoint, request_to, request-requests,
}

pub data Call : Type 0 where
  reserve_call : Option ReserveRequest → Call
  hold_call : Option HoldRequest → Call
  unreserve_call status_call release_call ready_call : Call

abbrev pub CallResult : Call → Type 0
CallResult (reserve_call v) = Option ReserveResponse
CallResult (hold_call h) = Option HoldStatus
CallResult unreserve_call = Unit {0}
CallResult status_call = Option HoldStatus
CallResult release_call = Unit {0}
CallResult ready_call = Unit {0}

abbrev pub run_call : Http → Server → Context → (call : Call) → Sent (CallResult call)
run_call http s ctx (reserve_call v) = reserve http s ctx v
run_call http s ctx (hold_call h) = hold http s ctx h
run_call http s ctx unreserve_call = unreserve http s ctx
run_call http s ctx status_call = get_hold_status http s ctx
run_call http s ctx release_call = release http s ctx
run_call http s ctx ready_call = ready_for_players http s ctx

-- The error that a call has to end with before it does anything: reservations need a server that
-- takes them, every call needs a context, a reservation its arguments, readiness an allocation.
abbrev in_context : Context → Option GoError → Option GoError
in_context nil_ctx later = some nil_context
in_context background later = later

abbrev argument_refusal : {A : Type 0} → Option A → Option GoError
argument_refusal none = some nil_args
argument_refusal (some v) = none

abbrev reservation_refusal : ServerType → Option GoError → Option GoError
reservation_refusal allocation later = some operation_not_applicable
reservation_refusal reservation later = later

abbrev allocation_refusal : Bytes → Option GoError
allocation_refusal [] = some not_allocated
allocation_refusal (b ∷ id) = none

abbrev pub refusal : Server → Context → Call → Option GoError
refusal s ctx (reserve_call v) =
    reservation_refusal s.server_type (in_context ctx (argument_refusal v))
refusal s ctx unreserve_call = reservation_refusal s.server_type (in_context ctx none)
refusal s ctx ready_call = in_context ctx (allocation_refusal s.allocated_uuid)
refusal s ctx (hold_call h) = in_context ctx none
refusal s ctx status_call = in_context ctx none
refusal s ctx release_call = in_context ctx none

abbrev pub call_endpoint : Server → Call → Endpoint
call_endpoint s (reserve_call v) = reserve_endpoint
call_endpoint s (hold_call h) = hold_endpoint
call_endpoint s unreserve_call = unreserve_endpoint
call_endpoint s status_call = status_endpoint
call_endpoint s release_call = release_endpoint
call_endpoint s ready_call = patch_endpoint s.allocated_uuid

abbrev pub call_body : Http → Call → Outcome GoError Bytes
call_body http (reserve_call none) = ok []
call_body http (reserve_call (some v)) = http.encode_reserve v
call_body http (hold_call h) = http.encode_hold h
call_body http unreserve_call = ok (codes "{}")
call_body http status_call = ok []
call_body http release_call = ok []
call_body http ready_call = http.encode_patch (record { ready = true })

-- A call that has to end with an error sends nothing; any other sends its endpoint's request.
abbrev pub Complies :
    {A : Type 0} → Http → Client → Endpoint → Bytes → Option GoError → Sent A → Type 0
Complies http c e body none sent = sent.requests ≡ request_to http c e body ∷ []
Complies http c e body (some x) sent = (sent.requests ≡ []) × (sent.result ≡ err x)

module _ (http : Http) (s : Server) (c : Client) (hc : s.local_proxy_client ≡ some c) where
  -- What the request of a call needs: arguments that can be encoded, and a URL.
  abbrev pub IsSendable : Call → Bytes → Type 0
  IsSendable call body =
      (call_body http call ≡ ok body)
      × (http.new_request (call_endpoint s call).method (server_url c (call_endpoint s call).path)
          ≡ ok tt)

  Right : Context → Call → Bytes → Type 0
  Right ctx call body =
      Complies http c (call_endpoint s call) body (refusal s ctx call) (run_call http s ctx call)

  fixed-requests :
      {A : Type 0} (e : Endpoint) (fixed body : Bytes) (decode : Response → Outcome GoError A)
      → fixed ≡ body
      → http.new_request e.method (server_url c e.path) ≡ ok tt
      → (request http e.method (server_url c e.path) fixed e.status decode).requests
        ≡ request_to http c e body ∷ []
  fixed-requests e fixed body decode h made =
      request-requests http c e fixed decode made ∙ ap (λ x. request_to http c e x ∷ []) h

  reserve-Complies :
      (ctx : Context) (v : Option ReserveRequest) (body : Bytes) (t : ServerType)
      → s.server_type ≡ t
      → IsSendable (reserve_call v) body
      → Right ctx (reserve_call v) body
  unfolding Right reserve reserve_self
  reserve-Complies ctx v body allocation ht (hb, made) = rw ht (refl, refl)
  reserve-Complies nil_ctx v body reservation ht (hb, made) = rw ht (refl, refl)
  reserve-Complies background none body reservation ht (hb, made) = rw ht (refl, refl)
  reserve-Complies background (some v) body reservation ht (hb, made) =
      rw (ht, hc, hb) (request-requests http c reserve_endpoint body _ made)

  unreserve-Complies :
      (ctx : Context) (body : Bytes) (t : ServerType)
      → s.server_type ≡ t
      → IsSendable unreserve_call body
      → Right ctx unreserve_call body
  unfolding Right unreserve unreserve_self
  unreserve-Complies ctx body allocation ht (hb, made) = rw ht (refl, refl)
  unreserve-Complies nil_ctx body reservation ht (hb, made) = rw ht (refl, refl)
  unreserve-Complies background body reservation ht (hb, made) =
      let h : codes "{}" ≡ body = cc in
      rw (ht, hc) (fixed-requests unreserve_endpoint (codes "{}") body _ h made)

  ready-Complies :
      (ctx : Context) (body id : Bytes)
      → s.allocated_uuid ≡ id
      → IsSendable ready_call body
      → Right ctx ready_call body
  unfolding Right ready_for_players patch_allocation
  ready-Complies nil_ctx body id h (hb, made) = (refl, refl)
  ready-Complies background body [] h (hb, made) = rw h (refl, refl)
  ready-Complies background body (b ∷ id) h (hb, made) =
      rw (h, hc, hb) (request-requests http c (patch_endpoint (b ∷ id)) body _ (rw h at made))

  -- On a server with a client, for a call whose arguments can be encoded and whose request can be
  -- made: a reservation call on an allocation server, a call without a context, a reservation
  -- without arguments, and readiness without an allocation send nothing and return their error;
  -- every other call sends exactly its endpoint's request, readiness that of the server's
  -- allocation.
  pub run_call-Complies :
      (ctx : Context) (call : Call) (body : Bytes)
      → IsSendable call body
      → Complies http c (call_endpoint s call) body (refusal s ctx call) (run_call http s ctx call)
  unfolding Right hold hold_self get_hold_status hold_status release release_self
  run_call-Complies ctx (reserve_call v) body p = reserve-Complies ctx v body _ refl p
  run_call-Complies ctx unreserve_call body p = unreserve-Complies ctx body _ refl p
  run_call-Complies ctx ready_call body p = ready-Complies ctx body _ refl p
  run_call-Complies nil_ctx (hold_call h) body p = (refl, refl)
  run_call-Complies background (hold_call h) body (hb, made) =
      rw (hc, hb) (request-requests http c hold_endpoint body _ made)
  run_call-Complies nil_ctx status_call body p = (refl, refl)
  run_call-Complies background status_call body (hb, made) =
      let h : [] ≡ body = cc in rw hc (fixed-requests status_endpoint [] body _ h made)
  run_call-Complies nil_ctx release_call body p = (refl, refl)
  run_call-Complies background release_call body (hb, made) =
      let h : [] ≡ body = cc in rw hc (fixed-requests release_endpoint [] body _ h made)
