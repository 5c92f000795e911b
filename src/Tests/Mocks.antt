-- ===== src/Tests/Mocks.antt =====
-- Runs against the mock of the local proxy.
use unity_gaming_services_go.Prelude.{
  ◌≡◌, refl, [], ◌∷◌, true, false, none, some, ok, codes, drop, length, drop-append,
}
use unity_gaming_services_go.LocalProxy.Decimal.{pos}
use unity_gaming_services_go.LocalProxy.Requests.{HoldStatus, ReserveResponse, Request, Http}
use unity_gaming_services_go.MockProxy.{
  MockLocalProxy, Codec, Surroundings, new_local_proxy, handle, handle_hold, recorded,
  allocation_id, hold_path, reply, token_body, jwt_token, close,
}
use unity_gaming_services_go.MockProxy.Session.{
  ready, mock_client, IsReported, allocation-IsReported,
}
use unity_gaming_services_go.LocalProxy.{BaseEvent, allocate_event_type, unmarshal_event}
use unity_gaming_services_go.Server.{Server}
use unity_gaming_services_go.Server.Events.{on_publish}
use unity_gaming_services_go.MockProxy.Calls.{Reaches}
use unity_gaming_services_go.Tests.{http, serving, decoder}

abbrev around : Surroundings
around = record {
  new_node = ok tt;
  run_node = ok tt;
  created = 100;
  fulfilled = 101;
  requested = 102;
  held_from = 103;
  new_uuid = ok (codes "r1");
  url = codes "http://127.0.0.1:4000";
}

abbrev reservation : ReserveResponse
reservation = record {
  build_configuration_id = pos 1234;
  created = 100;
  fulfilled = 101;
  game_port = pos 9000;
  ipv4 = some (codes "http://127.0.0.1:4000");
  ipv6 = none;
  requested = 102;
  reservation_id = codes "r1";
}

abbrev status : HoldStatus
status = record { expires_at = pos 703; held = true }

abbrev mock : MockLocalProxy
mock = record {
  closed = false;
  host = codes "http://127.0.0.1:4000";
  jwt = codes "token";
  reserve_response = reservation;
  hold_status = status;
  patch_allocation_requests = λ id. none;
}

-- The mock that NewLocalProxy makes, but for its token.
made :
    (m : MockLocalProxy) × (new_local_proxy around ≡ ok m)
    × (m.reserve_response ≡ reservation)
    × (m.hold_status ≡ status)
unfolding new_local_proxy
made = (_, refl, refl, refl)

-- JSON with a byte for a message's kind.
abbrev json : Codec
json = record {
  encode_reserve = λ r. 1 ∷ [];
  encode_hold = λ h. 2 ∷ [];
  decode_patch = λ b. record { ready = true };
  websocket = λ r. reply 400 [];
}

abbrev connected : Http
connected = record http {
  round_trip = λ r. ok (handle json mock (drop (length mock.host) r.url) r).1;
  decode_hold = λ b. ok (some status);
  decode_reserve = λ b. ok (some reservation);
}

connected-Reaches : Reaches connected json mock
connected-Reaches = record {
  makes = λ method url. refl;
  delivers = λ method path body id. rw (drop-append mock.host path) refl;
  reads_hold = refl;
  reads_reserve = refl;
}

abbrev patch : Request
patch = record { method = codes "PATCH"; url = []; body = []; request_id = [] }

abbrev listening : Server
listening = record serving { local_proxy_client = some (mock_client mock) }

abbrev announced : BaseEvent
announced = record { typ = allocate_event_type; event_id = []; server_id = pos 7 }

allocation-IsReported_example :
    IsReported connected json mock
      ((hold_path, patch) ∷ [])
      (codes "{}")
      (on_publish decoder (mock_client mock) (0 ∷ allocation_id) listening).0
unfolding unmarshal_event
allocation-IsReported_example =
    allocation-IsReported connected json mock decoder (0 ∷ allocation_id) announced listening
      ((hold_path, patch) ∷ []) (codes "{}") connected-Reaches refl refl refl refl refl refl refl

-- A method that the mock does not know, a path that it does not serve, and the token.
refuses : (handle json mock hold_path patch).1 ≡ reply 405 []
unfolding handle handle_hold
refuses = refl

other_server : (handle json mock (codes "/v1/servers/2/hold") patch).1 ≡ reply 200 []
unfolding handle
other_server = refl

token_answered : (handle json mock (codes "/token") patch).1 ≡ reply 200 (token_body jwt_token)
unfolding handle
token_answered = refl

-- A closed mock keeps its records.
closed_keeps : (close (recorded mock ready)).patch_allocation_requests allocation_id ≡ some ready
unfolding close
closed_keeps = refl
