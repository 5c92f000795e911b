-- ===== src/MockProxy/Calls.antt =====
-- The client's calls and the token request against the mock.
use unity_gaming_services_go.Prelude.{◌++◌, ◌≡◌, refl, ◌∙◌, [], ◌∷◌, Option, some, ok, Bytes, codes}
use unity_gaming_services_go.LocalProxy.{Client}
use unity_gaming_services_go.LocalProxy.Decimal.{pos, decimal}
use unity_gaming_services_go.LocalProxy.Requests.{
  PatchAllocationRequest, HoldRequest, ReserveRequest, Http, patch_allocation, hold_self,
  decode_body, hold_status, release_self, reserve_self, unreserve_self,
}
use unity_gaming_services_go.LocalProxy.Replies.{
  request_to, request-Follows, request-requests, patch_endpoint, hold_endpoint, status_endpoint,
  release_endpoint, reserve_endpoint, unreserve_endpoint,
}
use unity_gaming_services_go.MockProxy.{
  MockLocalProxy, Codec, allocation_id, allocation_path, recorded, handle, handle_reservations,
  handle_hold, handle_allocation,
}

-- The client reaches the mock: requests can be made, and each comes to the handler with its path,
-- behind the host; the two sides agree on the JSON of the messages.
pub record Reaches (http : Http) (json : Codec) (mock : MockLocalProxy) : Type 0 where
  pub makes : (method url : Bytes) → http.new_request method url ≡ ok tt
  pub delivers :
      (method path body id : Bytes)
      → http.round_trip
          (record { method = method; url = mock.host ++ path; body = body; request_id = id })
        ≡ ok
            (handle json mock path
              (record { method = method; url = mock.host ++ path; body = body; request_id = id })).1
  pub reads_hold : http.decode_hold (json.encode_hold mock.hold_status) ≡ ok (some mock.hold_status)
  pub reads_reserve :
      http.decode_reserve (json.encode_reserve mock.reserve_response)
      ≡ ok (some mock.reserve_response)

-- The client of the server with ID 1, which the mock serves.
abbrev pub client_of : MockLocalProxy → Client
client_of mock = record { host = mock.host; server_id = pos 1; callbacks = [] }

-- The calls that the mock answers.
module _ (http : Http) (json : Codec) (mock : MockLocalProxy) (h : Reaches http json mock) where
  abbrev c : Client
  c = client_of mock

  release_answered : (release_self http c).result ≡ ok tt
  unfolding release_self handle handle_hold decimal
  release_answered =
      (request-Follows http c release_endpoint [] _ (λ r. ok tt)
          (h.makes _ _, h.delivers _ _ _ _)).2
        refl

  unreserve_answered : (unreserve_self http c).result ≡ ok tt
  unfolding unreserve_self handle handle_reservations decimal
  unreserve_answered =
      (request-Follows http c unreserve_endpoint (codes "{}") _ (λ r. ok tt)
          (h.makes _ _, h.delivers _ _ _ _)).2
        refl

  status_answered : (hold_status http c).result ≡ ok (some mock.hold_status)
  unfolding hold_status handle handle_hold decimal
  status_answered =
      (request-Follows http c status_endpoint [] _ (decode_body http.decode_hold)
          (h.makes _ _, h.delivers _ _ _ _)).2
        refl
      ∙ rw h.reads_hold refl

  hold_answered :
      (args : Option HoldRequest) (buf : Bytes)
      → http.encode_hold args ≡ ok buf
      → (hold_self http c args).result ≡ ok (some mock.hold_status)
  unfolding hold_self handle handle_hold decimal
  hold_answered args buf e = rw e (
      (request-Follows http c hold_endpoint buf _ (decode_body http.decode_hold)
          (h.makes _ _, h.delivers _ _ _ _)).2
        refl
      ∙ rw h.reads_hold refl)

  reserve_answered :
      (args : ReserveRequest) (buf : Bytes)
      → http.encode_reserve args ≡ ok buf
      → (reserve_self http c args).result ≡ ok (some mock.reserve_response)
  unfolding reserve_self handle handle_reservations decimal
  reserve_answered args buf e = rw e (
      (request-Follows http c reserve_endpoint buf _ (decode_body http.decode_reserve)
          (h.makes _ _, h.delivers _ _ _ _)).2
        refl
      ∙ rw h.reads_reserve refl)

  pub patch_answered :
      (args : PatchAllocationRequest) (buf : Bytes)
      → http.encode_patch args ≡ ok buf
      → (patch_allocation http c allocation_id args).result ≡ ok tt
  unfolding patch_allocation handle handle_allocation decimal
  patch_answered args buf e = rw e (
      (request-Follows http c (patch_endpoint allocation_id) buf _ (λ r. ok tt)
          (h.makes _ _, h.delivers _ _ _ _)).2
        refl)

  -- The request that marks the allocation, as the mock gets it.
  pub patch_recorded :
      (args : PatchAllocationRequest) (buf : Bytes)
      → http.encode_patch args ≡ ok buf
      → json.decode_patch buf ≡ args
      → ((patch_allocation http c allocation_id args).requests
          ≡ request_to http c (patch_endpoint allocation_id) buf ∷ [])
        × ((handle json mock allocation_path
              (request_to http c (patch_endpoint allocation_id) buf)).0
            ≡ recorded mock args)
  unfolding patch_allocation handle handle_allocation
  patch_recorded args buf e d = (
    rw e ((request-requests http c (patch_endpoint allocation_id) buf (λ r. ok tt) (h.makes _ _))),
    rw d refl,
  )

-- When requests can be made, reach the mock's handler with their path behind its host, and the
-- two sides agree on the JSON: the client of the server with ID 1 gets the mock's hold status
-- from both calls of hold, the mock's reservation, and success from the release, the end of a
-- reservation and the readiness of the mock's allocation; that last request is the one sent, and
-- makes the mock record what it asks.
pub calls-mock :
    (http : Http) (json : Codec) (mock : MockLocalProxy) (hold : Option HoldRequest)
    (reservation : ReserveRequest) (patch : PatchAllocationRequest) (hb rb pb : Bytes)
    → Reaches http json mock
    → http.encode_hold hold ≡ ok hb
    → http.encode_reserve reservation ≡ ok rb
    → http.encode_patch patch ≡ ok pb
    → json.decode_patch pb ≡ patch
    → ((hold_self http (client_of mock) hold).result ≡ ok (some mock.hold_status))
      × ((hold_status http (client_of mock)).result ≡ ok (some mock.hold_status))
      × ((release_self http (client_of mock)).result ≡ ok tt)
      × ((reserve_self http (client_of mock) reservation).result ≡ ok (some mock.reserve_response))
      × ((unreserve_self http (client_of mock)).result ≡ ok tt)
      × ((patch_allocation http (client_of mock) allocation_id patch).result ≡ ok tt)
      × ((patch_allocation http (client_of mock) allocation_id patch).requests
          ≡ request_to http (client_of mock) (patch_endpoint allocation_id) pb ∷ [])
      × ((handle json mock allocation_path
            (request_to http (client_of mock) (patch_endpoint allocation_id) pb)).0
          ≡ recorded mock patch)
calls-mock http json mock hold reservation patch hb rb pb h eh er ep d = (
  hold_answered http json mock h hold hb eh,
  status_answered http json mock h,
  release_answered http json mock h,
  reserve_answered http json mock h reservation rb er,
  unreserve_answered http json mock h,
  patch_answered http json mock h patch pb ep,
  (patch_recorded http json mock h patch pb ep d).0,
  (patch_recorded http json mock h patch pb ep d).1,
)
