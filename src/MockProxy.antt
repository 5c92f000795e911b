-- ===== src/MockProxy.antt =====
-- internal/localproxytest/server.go: the mock of the local proxy that tests run against.
pub mod Recorded
pub mod Calls
pub mod Session
use unity_gaming_services_go.Prelude.{
  ℕ, ◌+◌, ◌++◌, List, [], ◌∷◌, Bool, true, false, Option, none, some, Outcome, ok, err, panic,
  ◌>>=◌, Bytes, codes, bytes_eq, if◌then◌else◌,
}
use unity_gaming_services_go.Server.Settings.{GoError}
use unity_gaming_services_go.LocalProxy.Decimal.{pos}
use unity_gaming_services_go.LocalProxy.Requests.{
  PatchAllocationRequest, HoldStatus, ReserveResponse, Request, Response,
}

-- The server's own state is whether it is closed. The broker's node is left out.
pub record MockLocalProxy : Type 0 where
  pub closed : Bool
  pub host : Bytes
  pub jwt : Bytes
  pub reserve_response : ReserveResponse
  pub hold_status : HoldStatus
  pub patch_allocation_requests : Bytes → Option PatchAllocationRequest

-- Packages encoding/json and centrifuge as the mock uses them: the bytes that Encode writes, what a
-- body leaves in an empty request, errors passed over in both; the answer of the broker's handler.
pub record Codec : Type 0 where
  pub encode_reserve : ReserveResponse → Bytes
  pub encode_hold : HoldStatus → Bytes
  pub decode_patch : Bytes → PatchAllocationRequest
  pub websocket : Request → Response

unfoldable pub jwt_token : Bytes
jwt_token =
    codes
      "eyJhbGciOiJSUzI1NiIsImtpZCI6IjAwOWFkOGYzYWJhN2U4NjRkNTg5NTVmNzYwMWY1YTgzNDg2OWJjNTMiLCJ0eXAiOiJKV1QifQ."
    ++ (codes
          "eyJlbnZpcm9ubWVudF9pZCI6ImJiNjc5ZWMxLTM3ZmItNDZjNi1iMmZjLWNkNDk4NzJlMmMxYSIsImV4cCI6MTY3NDg1NDEzNiwiaWF0Ijox"
        ++ (codes
              "NjQzMzE4MTM2LCJwcm9qZWN0X2d1aWQiOiJlODBlMmZmMS0zZmFhLTRhOTQtOWUyZC1hMDIxMDdhZTJhODMifQ.FejrCFVs351JQmt_QYUGy"
            ++ (codes
                  "pG6ECy8c2N2WDFu2a7Ww85MvUWXpdB6KRnRdryKIGTNqNrRhP1wHLQZDYtCGZGc36mBoJ3Kz_1yONp3MDmC92cHWP-9duoB5otrkD66TigtI"
                ++ (codes
                      "cXruKdD65vBehFHod2gYvAwhnGa0GWJV4TLR927KiFC_O4mkxIAyTYued3rsFRgCXwlePY2kglOcpCaa8r_86hta4QYbZRmdfTu9ZNeW6K92"
                    ++ (codes
                          "t8cMoUF_01Re7Gq4gZ-UwEi9IQ9E1ltITyfkY6ksmoURGEZKNuicRrzSTAzUpv460YGCJOZSbbA7ua8DR4qcTgZKDpWUN1LEJoYkuovJcAgj"
                        ++ (codes
                              "_5svOgdAcPAnmwtkpQQsJx1SSwy9ODFgGozis8k3jxbj_nyd-7zve5KG7l6nNbpnQvG8DIJTIGAl-pQQ_lVvhBlcdeaUeiu4zx5DbijEgqiE"
                            ++ (codes
                                  "XGeTEWZegCMDET_4kyEN-Bs8Bzu4wH_w7MPMQANWuQnB5P-Y4t_wKSLLgOUF5yEZnDm5cVOojnIbYCaGOC5IVj8o4ki2vuff92mAdKWOWIYV"
                                ++ (codes
                                      "-9pg24XDlgss6csGw_8vVO-5p9fUHI4d0nRsIB_YeblNrVEcJeiVtVFA_yzx_v9K8AJyt_xZUhsJ3N85E9ftIP5NuHIL0sNxwl7m6dzHQ9Xw"
                                    ++ codes "iQJ_pZU4QFzIJI"))))))))

-- The answers of the broker and of google/uuid, the clock's readings in seconds, and the URL of the
-- test server.
pub record Surroundings : Type 0 where
  pub new_node : Outcome GoError (Unit {0})
  pub run_node : Outcome GoError (Unit {0})
  pub created : ℕ
  pub fulfilled : ℕ
  pub requested : ℕ
  pub held_from : ℕ
  pub new_uuid : Outcome GoError Bytes
  pub url : Bytes

-- `Ipv4` points to `ip`, which is set once the server runs.
unfoldable pub new_local_proxy : Surroundings → Outcome GoError MockLocalProxy
unfolding jwt_token
new_local_proxy w = do
  _ ← w.new_node
  _ ← w.run_node
  id ← w.new_uuid
  ok (record {
    closed = false;
    host = w.url;
    jwt = jwt_token;
    reserve_response = record {
      build_configuration_id = pos 1234;
      created = w.created;
      fulfilled = w.fulfilled;
      game_port = pos 9000;
      ipv4 = some w.url;
      ipv6 = none;
      requested = w.requested;
      reservation_id = id;
    };
    hold_status = record { expires_at = pos (w.held_from + 600); held = true };
    patch_allocation_requests = λ id. none;
  })

abbrev pub reply : ℕ → Bytes → Response
reply status body = record { status_code = status; body = ok body }

abbrev not_allowed : Response
not_allowed = reply 405 []

abbrev pub websocket_path : Bytes
websocket_path = codes "/v1/connection/websocket"

abbrev pub reservations_path : Bytes
reservations_path = codes "/v1/servers/1/reservations"

abbrev pub hold_path : Bytes
hold_path = codes "/v1/servers/1/hold"

abbrev pub allocation_id : Bytes
allocation_id = codes "00000001-0000-0000-0000-000000000000"

abbrev pub allocation_path : Bytes
allocation_path = codes "/v1/servers/1/allocations/00000001-0000-0000-0000-000000000000"

-- The JSON of the token, with the line breaks and tabs of the source.
unfoldable pub token_body : Bytes → Bytes
token_body token =
    b'{'
    ∷ 10
    ∷ 9
    ∷ 9
    ∷ 9
    ∷ 9
    ∷ 34
    ∷ (codes "token"
        ++ 34
          ∷ 58
          ∷ 32
          ∷ 34
          ∷ (token
              ++ 34
                ∷ 44
                ∷ 10
                ∷ 9
                ∷ 9
                ∷ 9
                ∷ 9
                ∷ 34
                ∷ (codes "error" ++ 34 ∷ 58 ∷ 32 ∷ 34 ∷ 34 ∷ 10 ∷ 9 ∷ 9 ∷ 9 ∷ b'}' ∷ [])))

unfoldable pub handle_reservations : Codec → MockLocalProxy → Bytes → Response
handle_reservations json mock method =
    if bytes_eq method (codes "POST")
    then reply 200 (json.encode_reserve mock.reserve_response)
    else if bytes_eq method (codes "DELETE")
    then reply 204 []
    else not_allowed

unfoldable pub handle_hold : Codec → MockLocalProxy → Bytes → Response
handle_hold json mock method =
    if bytes_eq method (codes "GET")
    then reply 200 (json.encode_hold mock.hold_status)
    else if bytes_eq method (codes "POST")
    then reply 200 (json.encode_hold mock.hold_status)
    else if bytes_eq method (codes "DELETE")
    then reply 204 []
    else not_allowed

-- `patchAllocationRequests[id] = req`
abbrev pub recorded : MockLocalProxy → PatchAllocationRequest → MockLocalProxy
recorded mock req = record mock {
  patch_allocation_requests =
      λ id. if bytes_eq id allocation_id then some req else mock.patch_allocation_requests id;
}

unfoldable pub handle_allocation :
    Codec → MockLocalProxy → Bytes → Bytes → MockLocalProxy × Response
handle_allocation json mock method body =
    if bytes_eq method (codes "PATCH")
    then (recorded mock (json.decode_patch body), reply 204 [])
    else (mock, not_allowed)

-- The handler of the test server. A handler that writes nothing answers 200 with an empty body.
unfoldable pub handle : Codec → MockLocalProxy → Bytes → Request → MockLocalProxy × Response
unfolding jwt_token token_body handle_reservations handle_hold handle_allocation
handle json mock path r =
    if bytes_eq path websocket_path
    then (mock, json.websocket r)
    else if bytes_eq path (codes "/token")
    then (mock, reply 200 (token_body jwt_token))
    else if bytes_eq path reservations_path
    then (mock, handle_reservations json mock r.method)
    else if bytes_eq path hold_path
    then (mock, handle_hold json mock r.method)
    else if bytes_eq path allocation_path
    then handle_allocation json mock r.method r.body
    else (mock, reply 200 [])

-- `Close`
unfoldable pub close : MockLocalProxy → MockLocalProxy
close mock = record mock { closed = true }
