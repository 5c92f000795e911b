-- ===== src/MockProxy/Session.antt =====
-- From an allocation to the server's readiness: event_watcher.go, ReadyForPlayers of server.go, and
-- the mock.
use unity_gaming_services_go.Prelude.{
  ◌≡◌, refl, ap, sym, subst, ◌∙◌, List, [], ◌∷◌, ◌++◌, true, none, some, ok, Bytes,
}
use unity_gaming_services_go.LocalProxy.{
  BaseEvent, allocate_event, allocate_event_type, EventDecoder, unmarshal_event, Client, new_client,
  register_callback,
}
use unity_gaming_services_go.LocalProxy.Decimal.{pos}
use unity_gaming_services_go.LocalProxy.Requests.{
  PatchAllocationRequest, Request, Http, patch_allocation,
}
use unity_gaming_services_go.LocalProxy.Replies.{request_to, patch_endpoint}
use unity_gaming_services_go.Server.{Server, allocation}
use unity_gaming_services_go.Server.Events.{on_event, on_publish, make_client}
use unity_gaming_services_go.Server.Events.Allocation.{on_event-allocation}
use unity_gaming_services_go.Server.Actions.{background, ready_for_players}
use unity_gaming_services_go.MockProxy.{
  MockLocalProxy, Codec, allocation_id, allocation_path, handle,
}
use unity_gaming_services_go.MockProxy.Recorded.{serve, handle-after}
use unity_gaming_services_go.MockProxy.Calls.{Reaches, client_of, patch_answered, patch_recorded}

abbrev pub ready : PatchAllocationRequest
ready = record { ready = true }

-- The client that the server makes for the mock.
abbrev pub mock_client : MockLocalProxy → Client
mock_client mock = make_client allocation mock.host (pos 1)

serve-append :
    (json : Codec) (xs ys : List (Bytes × Request)) (mock : MockLocalProxy)
    → serve json (xs ++ ys) mock ≡ serve json ys (serve json xs mock)
unfolding serve
serve-append json [] ys mock = refl
serve-append json ((path, r) ∷ xs) ys mock = serve-append json xs ys (handle json mock path r).0

module _ (http : Http) (mock : MockLocalProxy) where
  -- The callbacks of a client do not matter for its calls.
  same_patch :
      patch_allocation http (mock_client mock) allocation_id ready
      ≡ patch_allocation http (client_of mock) allocation_id ready
  unfolding patch_allocation make_client register_callback new_client
  same_patch = refl

  -- A server allocated to the mock's allocation.
  ready_sends :
      (s : Server)
      → s.local_proxy_client ≡ some (mock_client mock)
      → s.allocated_uuid ≡ allocation_id
      → ready_for_players http s background
        ≡ patch_allocation http (client_of mock) allocation_id ready
  unfolding ready_for_players
  ready_sends s hc ha = rw (ha, hc) same_patch

abbrev pub ready_request : Http → MockLocalProxy → Bytes → Request
ready_request http mock buf = request_to http (client_of mock) (patch_endpoint allocation_id) buf

records_ready :
    (http : Http) (json : Codec) (mock m : MockLocalProxy) (buf : Bytes)
    → json.decode_patch buf ≡ ready
    → (handle json m allocation_path (ready_request http mock buf)).0.patch_allocation_requests
        allocation_id
      ≡ some ready
records_ready http json mock m buf d =
    ap (λ k. k.patch_allocation_requests allocation_id)
      (handle-after json m (ready_request http mock buf) allocation_path)
    ∙ ap some d

allocated_by :
    (d : EventDecoder) (mock : MockLocalProxy) (message : Bytes) (b : BaseEvent) (s : Server)
    → unmarshal_event d message ≡ ok (allocate_event b allocation_id)
    → b.typ ≡ allocate_event_type
    → s.chan_allocated ≡ none
    → s.chan_deallocated ≡ none
    → (on_publish d (mock_client mock) message s).0
      ≡ record s { allocated_uuid = allocation_id; chan_allocated = some allocation_id }
unfolding on_publish
allocated_by d mock message b s e typed ha hd =
    ap (λ r. (on_event r (mock_client mock) s).0) e
    ∙ ap (λ p. p.0)
        (on_event-allocation mock.host (pos 1) (allocate_event b allocation_id) s typed ha hd)

-- The server after the message, what ReadyForPlayers comes to, and the mock after its request.
abbrev pub IsReported :
    Http → Codec → MockLocalProxy → List (Bytes × Request) → Bytes → Server → Type 0
IsReported http json mock earlier buf t =
    (t.chan_allocated ≡ some allocation_id)
    × ((ready_for_players http t background).result ≡ ok tt)
    × ((ready_for_players http t background).requests ≡ ready_request http mock buf ∷ [])
    × ((serve json (earlier ++ (allocation_path, ready_request http mock buf) ∷ [])
            mock).patch_allocation_requests
          allocation_id
        ≡ some ready)

-- When requests can be made, reach the mock's handler with their path behind its host, the two
-- sides agree on the JSON, and a server with both channels of allocations empty has the client
-- that it makes for the mock: after a message with an allocation event for the mock's allocation,
-- the user finds the allocation in its channel, ReadyForPlayers succeeds and sends the one
-- request, and that request, after any others, makes the mock record the allocation as ready.
pub allocation-IsReported :
    (http : Http) (json : Codec) (mock : MockLocalProxy) (d : EventDecoder) (message : Bytes)
    (b : BaseEvent) (s : Server) (earlier : List (Bytes × Request)) (buf : Bytes)
    → Reaches http json mock
    → http.encode_patch ready ≡ ok buf
    → json.decode_patch buf ≡ ready
    → unmarshal_event d message ≡ ok (allocate_event b allocation_id)
    → b.typ ≡ allocate_event_type
    → s.chan_allocated ≡ none
    → s.chan_deallocated ≡ none
    → s.local_proxy_client ≡ some (mock_client mock)
    → IsReported http json mock earlier buf (on_publish d (mock_client mock) message s).0
allocation-IsReported http json mock d message b s earlier buf h eb db e typed ha hd hc =
    subst (IsReported http json mock earlier buf)
      (sym (allocated_by d mock message b s e typed ha hd))
      (
        refl,
        ap (λ x. x.result) sends ∙ patch_answered http json mock h ready buf eb,
        ap (λ x. x.requests) sends ∙ (patch_recorded http json mock h ready buf eb db).0,
        ap (λ m. m.patch_allocation_requests allocation_id)
              (serve-append json earlier ((allocation_path, ready_request http mock buf) ∷ []) mock)
            ∙ unfold serve in records_ready http json mock (serve json earlier mock) buf db,
      )
  where
    t : Server
    t = record s { allocated_uuid = allocation_id; chan_allocated = some allocation_id }

    sends :
        ready_for_players http t background
        ≡ patch_allocation http (client_of mock) allocation_id ready
    sends = ready_sends http mock t hc refl
