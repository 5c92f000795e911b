-- ===== src/Tests/Proxies.antt =====
-- Runs of the calls of the local proxy.
use unity_gaming_services_go.Prelude.{refl, [], true, none, ok, Bytes, codes}
use unity_gaming_services_go.LocalProxy.Requests.{
  PatchAllocationRequest, Response, reserve_request, decode_body, patch_allocation, hold_self,
  hold_status, release_self, reserve_self, unreserve_self,
}
use unity_gaming_services_go.LocalProxy.Replies.{
  patch_endpoint, hold_endpoint, status_endpoint, release_endpoint, reserve_endpoint,
  unreserve_endpoint, IsAnswered, Follows, calls_follow,
}
use unity_gaming_services_go.Server.Actions.{background}
use unity_gaming_services_go.Server.Actions.Guards.{
  ready_call, call_endpoint, refusal, run_call, Complies, run_call-Complies,
}
use unity_gaming_services_go.Tests.{http, proxy_client, serving}

run_call-Complies_example :
    Complies http proxy_client
      (call_endpoint serving ready_call)
      (codes "{}")
      (refusal serving background ready_call)
      (run_call http serving background ready_call)
run_call-Complies_example =
    run_call-Complies http serving proxy_client refl background ready_call (codes "{}") (refl, refl)

abbrev id : Bytes
id = codes "a1"

abbrev ready_request : PatchAllocationRequest
ready_request = record { ready = true }

abbrev no_content : Response
no_content = record { status_code = 204; body = ok [] }

abbrev empty_object : Bytes
empty_object = codes "{}"

calls_follow_example :
    (IsAnswered http proxy_client (patch_endpoint id) empty_object no_content
      → Follows http proxy_client
          (patch_endpoint id)
          empty_object
          (λ r. ok tt)
          no_content
          (patch_allocation http proxy_client id ready_request))
    × (IsAnswered http proxy_client hold_endpoint empty_object no_content
        → Follows http proxy_client hold_endpoint empty_object
            (decode_body http.decode_hold)
            no_content
            (hold_self http proxy_client none))
    × (IsAnswered http proxy_client status_endpoint [] no_content
        → Follows http proxy_client status_endpoint []
            (decode_body http.decode_hold)
            no_content
            (hold_status http proxy_client))
    × (IsAnswered http proxy_client release_endpoint [] no_content
        → Follows http proxy_client release_endpoint []
            (λ r. ok tt)
            no_content
            (release_self http proxy_client))
    × (IsAnswered http proxy_client reserve_endpoint empty_object no_content
        → Follows http proxy_client reserve_endpoint empty_object
            (decode_body http.decode_reserve)
            no_content
            (reserve_self http proxy_client reserve_request))
    × (IsAnswered http proxy_client unreserve_endpoint (codes "{}") no_content
        → Follows http proxy_client unreserve_endpoint
            (codes "{}")
            (λ r. ok tt)
            no_content
            (unreserve_self http proxy_client))
calls_follow_example =
    calls_follow http proxy_client id ready_request none reserve_request empty_object empty_object
      empty_object no_content refl refl refl
