-- ===== src/LocalProxy/Requests.antt =====
-- allocation.go, hold.go, release.go, reserve.go, unreserve.go and error.go of localproxy, and the
-- messages of game-server-hosting/server/model.
use unity_gaming_services_go.Prelude.{
  ℕ, ◌++◌, List, [], ◌∷◌, Bool, Option, Outcome, ok, err, panic, Bytes, codes, ◌>>=◌, ◌==◌,
  if◌then◌else◌,
}
use unity_gaming_services_go.Server.Settings.{GoError, unexpected_response, wrap, wrapped}
use unity_gaming_services_go.LocalProxy.{Client}
use unity_gaming_services_go.LocalProxy.Decimal.{ℤ, pos, decimal}

pub record PatchAllocationRequest : Type 0 where
  pub ready : Bool

pub record HoldRequest : Type 0 where
  pub timeout : Bytes

pub record HoldStatus : Type 0 where
  pub expires_at : ℤ
  pub held : Bool

pub data ReserveRequest : Type 0 where
  reserve_request : ReserveRequest

-- Times are seconds.
pub record ReserveResponse : Type 0 where
  pub build_configuration_id : ℤ
  pub created : ℕ
  pub fulfilled : ℕ
  pub game_port : ℤ
  pub ipv4 : Option Bytes
  pub ipv6 : Option Bytes
  pub requested : ℕ
  pub reservation_id : Bytes

pub record Request : Type 0 where
  pub method : Bytes
  pub url : Bytes
  pub body : Bytes
  pub request_id : Bytes

-- `body` is what io.ReadAll gives of it.
pub record Response : Type 0 where
  pub status_code : ℕ
  pub body : Outcome GoError Bytes

abbrev pub status_ok : ℕ
status_ok = 200

abbrev pub status_no_content : ℕ
status_no_content = 204

-- Packages net/http, encoding/json, errors and google/uuid: whether a request can be made for a URL,
-- the next UUID, the answer to a request, the JSON of a message and back (a JSON null is a nil
-- pointer), the text of an error.
pub record Http : Type 0 where
  pub new_request : Bytes → Bytes → Outcome GoError (Unit {0})
  pub new_uuid : Outcome GoError Bytes
  pub round_trip : Request → Outcome GoError Response
  pub encode_patch : PatchAllocationRequest → Outcome GoError Bytes
  pub encode_hold : Option HoldRequest → Outcome GoError Bytes
  pub encode_reserve : ReserveRequest → Outcome GoError Bytes
  pub decode_hold : Bytes → Outcome GoError (Option HoldStatus)
  pub decode_reserve : Bytes → Outcome GoError (Option ReserveResponse)
  pub error_text : GoError → Bytes

-- What a call leaves behind: the requests sent, the response bodies closed, and the result.
pub record Sent (A : Type 0) : Type 0 where
  pub requests : List Request
  pub closed : ℕ
  pub result : Outcome GoError A

abbrev pub unsent : {A : Type 0} → Outcome GoError A → Sent A
unsent r = record { requests = []; closed = 0; result = r }

abbrev pub empty_uuid : Bytes
empty_uuid = codes "00000000-0000-0000-0000-000000000000"

-- If no UUID can be generated, an empty one is sent.
abbrev pub request_id_of : Outcome GoError Bytes → Bytes
request_id_of (ok id) = id
request_id_of (err e) = empty_uuid
request_id_of panic = empty_uuid

-- error.go
unfoldable pub new_unexpected_response : Http → Bytes → ℕ → Outcome GoError Bytes → GoError
new_unexpected_response http id status (ok body) = unexpected_response id status body
new_unexpected_response http id status (err e) = unexpected_response id status (http.error_text e)
new_unexpected_response http id status panic = unexpected_response id status []

-- `Error` of model.UnexpectedResponseError.
unfoldable pub unexpected_response_text : Bytes → ℕ → Bytes → Bytes
unexpected_response_text id status body =
    codes "unexpected response from local proxy, request ID: "
    ++ (id ++ (codes ", status: " ++ (decimal (pos status) ++ (codes ", error: " ++ body))))

-- The part that the six calls share, from the request on: the body is closed on every return.
abbrev pub deliver :
    {A : Type 0} → Request → Outcome GoError Response → (Response → Outcome GoError A) → Sent A
deliver req (ok resp) k = record { requests = req ∷ []; closed = 1; result = k resp }
deliver req (err e) k = record { requests = req ∷ []; closed = 0; result = err e }
deliver req panic k = record { requests = req ∷ []; closed = 0; result = panic }

abbrev after_made :
    {A : Type 0}
    → Http
    → Request
    → Outcome GoError (Unit {0})
    → (Response → Outcome GoError A)
    → Sent A
after_made http req (ok u) k =
    deliver req (wrapped (codes "error making request") (http.round_trip req)) k
after_made http req (err e) k = unsent (err e)
after_made http req panic k = unsent panic

unfoldable pub request :
    {A : Type 0} → Http → Bytes → Bytes → Bytes → ℕ → (Response → Outcome GoError A) → Sent A
unfolding new_unexpected_response
request http method url body expected decode =
    let id = request_id_of http.new_uuid in
    let req : Request = record { method = method; url = url; body = body; request_id = id } in
    after_made http req (wrapped (codes "error creating request") (http.new_request method url))
      λ resp.
        if resp.status_code == expected
        then decode resp
        else err (new_unexpected_response http id resp.status_code resp.body)

-- The calls with a body encode it first.
abbrev encoded : {A : Type 0} → Outcome GoError Bytes → (Bytes → Sent A) → Sent A
encoded (ok buf) k = k buf
encoded (err e) k = unsent (err (wrap (codes "error encoding args") e))
encoded panic k = unsent panic

abbrev nothing : Response → Outcome GoError (Unit {0})
nothing resp = ok tt

-- json.NewDecoder(resp.Body).Decode
abbrev pub decode_body : {A : Type 0} → (Bytes → Outcome GoError A) → Response → Outcome GoError A
decode_body f resp = wrapped (codes "error decoding response") (resp.body >>= f)

abbrev pub server_url : Client → Bytes → Bytes
server_url c path = c.host ++ (codes "/v1/servers/" ++ (decimal c.server_id ++ path))

unfoldable pub patch_allocation : Http → Client → Bytes → PatchAllocationRequest → Sent (Unit {0})
patch_allocation http c allocation_id args = encoded (http.encode_patch args) λ buf.
    request http (codes "PATCH") (server_url c (codes "/allocations/" ++ allocation_id)) buf
      status_no_content nothing

unfoldable pub hold_self : Http → Client → Option HoldRequest → Sent (Option HoldStatus)
hold_self http c args = encoded (http.encode_hold args) λ buf.
    request http (codes "POST") (server_url c (codes "/hold")) buf status_ok
      (decode_body http.decode_hold)

unfoldable pub hold_status : Http → Client → Sent (Option HoldStatus)
hold_status http c =
    request http (codes "GET") (server_url c (codes "/hold")) [] status_ok
      (decode_body http.decode_hold)

unfoldable pub release_self : Http → Client → Sent (Unit {0})
release_self http c =
    request http (codes "DELETE") (server_url c (codes "/hold")) [] status_no_content nothing

unfoldable pub reserve_self : Http → Client → ReserveRequest → Sent (Option ReserveResponse)
reserve_self http c args = encoded (http.encode_reserve args) λ buf.
    request http (codes "POST") (server_url c (codes "/reservations")) buf status_ok
      (decode_body http.decode_reserve)

unfoldable pub unreserve_self : Http → Client → Sent (Unit {0})
unreserve_self http c =
    request http (codes "DELETE") (server_url c (codes "/reservations")) (codes "{}")
      status_no_content nothing
