-- ===== src/LocalProxy/Replies.antt =====
-- What the six calls of localproxy send, and what they make of the answer.
use unity_gaming_services_go.Prelude.{
  ℕ, ◌++◌, ◌≡◌, ◌≢◌, refl, ap, [], ◌∷◌, true, false, Option, Outcome, ok, err, panic, Bytes, codes,
  ◌==◌, if◌then◌else◌, arith,
}
use unity_gaming_services_go.Server.Settings.{GoError, unexpected_response, wrapped}
use unity_gaming_services_go.LocalProxy.{Client}
use unity_gaming_services_go.LocalProxy.Requests.{
  PatchAllocationRequest, HoldRequest, ReserveRequest, Request, Response, Http, Sent, request_id_of,
  new_unexpected_response, deliver, request, decode_body, server_url, patch_allocation, hold_self,
  hold_status, release_self, reserve_self, unreserve_self,
}

-- An endpoint of the proxy: the method, the path behind the server's ID, the status of success.
pub record Endpoint : Type 0 where
  pub method : Bytes
  pub path : Bytes
  pub status : ℕ

abbrev pub request_to : Http → Client → Endpoint → Bytes → Request
request_to http c e body = record {
  method = e.method;
  url = server_url c e.path;
  body = body;
  request_id = request_id_of http.new_uuid;
}

-- The text that an unexpected answer is reported with.
abbrev pub report : Http → Outcome GoError Bytes → Bytes
report http (ok body) = body
report http (err e) = http.error_text e
report http panic = []

-- The one request sent is the endpoint's; its answer's body is closed; an answer of the endpoint's
-- status gives the decoded result, and any other an error with the request's ID, the status and the
-- body.
abbrev pub Follows :
    {A : Type 0}
    → Http
    → Client
    → Endpoint
    → Bytes
    → (Response → Outcome GoError A)
    → Response
    → Sent A
    → Type 0
Follows http c e body decode resp sent =
    (sent.requests ≡ request_to http c e body ∷ [])
    × (sent.closed ≡ 1)
    × (resp.status_code ≡ e.status → sent.result ≡ decode resp)
    × (resp.status_code ≢ e.status
        → sent.result
          ≡ err (
              unexpected_response (request_id_of http.new_uuid) resp.status_code
                (report http resp.body)))

module _ (http : Http) (c : Client) (e : Endpoint) (body : Bytes) (resp : Response) where
  -- The request can be made and is answered by `resp`.
  abbrev pub IsAnswered : Type 0
  IsAnswered =
      (http.new_request e.method (server_url c e.path) ≡ ok tt)
      × (http.round_trip (request_to http c e body) ≡ ok resp)

  reported :
      new_unexpected_response http (request_id_of http.new_uuid) resp.status_code resp.body
      ≡ unexpected_response (request_id_of http.new_uuid) resp.status_code (report http resp.body)
  unfolding new_unexpected_response
  reported = ground arith

  pub request-Follows :
      {A : Type 0} (decode : Response → Outcome GoError A)
      → IsAnswered
      → Follows http c e body decode resp
          (request http e.method (server_url c e.path) body e.status decode)
  unfolding request
  request-Follows decode (made, answered) =
      rw (made, answered) (refl, refl, (λ h. rw (same h)), (λ h. rw (differ h) (ap err reported)))
    where
      same : resp.status_code ≡ e.status → (resp.status_code == e.status) ≡ true
      same h = ground arith

      differ : resp.status_code ≢ e.status → (resp.status_code == e.status) ≡ false
      differ h = ground arith

-- A request that can be made is sent, whatever becomes of it.
pub request-requests :
    {A : Type 0} (http : Http) (c : Client) (e : Endpoint) (body : Bytes)
    (decode : Response → Outcome GoError A)
    → http.new_request e.method (server_url c e.path) ≡ ok tt
    → (request http e.method (server_url c e.path) body e.status decode).requests
      ≡ request_to http c e body ∷ []
unfolding request
request-requests http c e body decode made =
    rw made (delivered (http.round_trip (request_to http c e body)))
  where
    delivered :
        (r : Outcome GoError Response)
        → (deliver (request_to http c e body) (wrapped (codes "error making request") r) λ resp.
            if resp.status_code == e.status
            then decode resp
            else err (
                new_unexpected_response http
                  (request_id_of http.new_uuid)
                  resp.status_code
                  resp.body)).requests
          ≡ request_to http c e body ∷ []
    delivered (ok resp) = refl
    delivered (err x) = refl
    delivered panic = refl

abbrev endpoint : Bytes → Bytes → ℕ → Endpoint
endpoint method path status = record { method = method; path = path; status = status }

abbrev pub patch_endpoint : Bytes → Endpoint
patch_endpoint id = endpoint (codes "PATCH") (codes "/allocations/" ++ id) 204

abbrev pub hold_endpoint : Endpoint
hold_endpoint = endpoint (codes "POST") (codes "/hold") 200

abbrev pub status_endpoint : Endpoint
status_endpoint = endpoint (codes "GET") (codes "/hold") 200

abbrev pub release_endpoint : Endpoint
release_endpoint = endpoint (codes "DELETE") (codes "/hold") 204

abbrev pub reserve_endpoint : Endpoint
reserve_endpoint = endpoint (codes "POST") (codes "/reservations") 200

abbrev pub unreserve_endpoint : Endpoint
unreserve_endpoint = endpoint (codes "DELETE") (codes "/reservations") 204

-- Each of the six calls of localproxy whose arguments can be encoded, and whose request can be
-- made and is answered: it sends that one request, with its endpoint's method and URL, closes the
-- one body, and gives the decoded result on the endpoint's status and otherwise an error with the
-- request's ID, the status and the body.
pub calls_follow :
    (http : Http) (c : Client) (id : Bytes) (p : PatchAllocationRequest) (h : Option HoldRequest)
    (v : ReserveRequest) (pb hb rb : Bytes) (resp : Response)
    → http.encode_patch p ≡ ok pb
    → http.encode_hold h ≡ ok hb
    → http.encode_reserve v ≡ ok rb
    → (IsAnswered http c (patch_endpoint id) pb resp
        → Follows http c (patch_endpoint id) pb (λ r. ok tt) resp (patch_allocation http c id p))
      × (IsAnswered http c hold_endpoint hb resp
          → Follows http c hold_endpoint hb
              (decode_body http.decode_hold)
              resp
              (hold_self http c h))
      × (IsAnswered http c status_endpoint [] resp
          → Follows http c status_endpoint []
              (decode_body http.decode_hold)
              resp
              (hold_status http c))
      × (IsAnswered http c release_endpoint [] resp
          → Follows http c release_endpoint [] (λ r. ok tt) resp (release_self http c))
      × (IsAnswered http c reserve_endpoint rb resp
          → Follows http c reserve_endpoint rb
              (decode_body http.decode_reserve)
              resp
              (reserve_self http c v))
      × (IsAnswered http c unreserve_endpoint (codes "{}") resp
          → Follows http c unreserve_endpoint
              (codes "{}")
              (λ r. ok tt)
              resp
              (unreserve_self http c))
unfolding patch_allocation hold_self hold_status release_self reserve_self unreserve_self
calls_follow http c id p h v pb hb rb resp ep eh er = (
  λ a. rw ep (request-Follows http c (patch_endpoint id) pb resp (λ r. ok tt) a),
  λ a. rw eh (request-Follows http c hold_endpoint hb resp (decode_body http.decode_hold) a),
  λ a. request-Follows http c status_endpoint [] resp (decode_body http.decode_hold) a,
  λ a. request-Follows http c release_endpoint [] resp (λ r. ok tt) a,
  λ a. rw er (request-Follows http c reserve_endpoint rb resp (decode_body http.decode_reserve) a),
  λ a. request-Follows http c unreserve_endpoint (codes "{}") resp (λ r. ok tt) a,
)
