-- ===== src/Server/Actions.antt =====
-- server.go: the operations that a user calls for the local proxy. A nil client panics; a context is
-- only tested for nil.
pub mod Guards
use unity_gaming_services_go.Prelude.{
  ◌∷◌, [], Bool, true, false, Option, none, some, Outcome, ok, err, panic, Bytes,
}
use unity_gaming_services_go.Server.Settings.{
  GoError, operation_not_applicable, nil_context, nil_args, not_allocated,
}
use unity_gaming_services_go.Server.{Server, ServerType, allocation, reservation}
use unity_gaming_services_go.LocalProxy.{Client}
use unity_gaming_services_go.LocalProxy.Requests.{
  PatchAllocationRequest, HoldRequest, HoldStatus, ReserveRequest, ReserveResponse, Http, Sent,
  unsent, patch_allocation, hold_self, hold_status, release_self, reserve_self, unreserve_self,
}

-- A context.Context that may be nil.
pub data Context : Type 0 where
  nil_ctx background : Context

abbrev with_context : {A : Type 0} → Context → Sent A → Sent A
with_context nil_ctx k = unsent (err nil_context)
with_context background k = k

abbrev with_client : {A : Type 0} → Option Client → (Client → Sent A) → Sent A
with_client none k = unsent panic
with_client (some c) k = k c

abbrev with_args : {A B : Type 0} → Option A → (A → Sent B) → Sent B
with_args none k = unsent (err nil_args)
with_args (some args) k = k args

abbrev for_reservations : {A : Type 0} → ServerType → Sent A → Sent A
for_reservations allocation k = unsent (err operation_not_applicable)
for_reservations reservation k = k

unfoldable pub reserve :
    Http → Server → Context → Option ReserveRequest → Sent (Option ReserveResponse)
reserve http s ctx args = for_reservations s.server_type (
    with_context ctx
      (with_args args λ v. with_client s.local_proxy_client λ c. reserve_self http c v))

unfoldable pub unreserve : Http → Server → Context → Sent (Unit {0})
unreserve http s ctx =
    for_reservations s.server_type
      (with_context ctx (with_client s.local_proxy_client λ c. unreserve_self http c))

unfoldable pub hold : Http → Server → Context → Option HoldRequest → Sent (Option HoldStatus)
hold http s ctx args =
    with_context ctx (with_client s.local_proxy_client λ c. hold_self http c args)

unfoldable pub get_hold_status : Http → Server → Context → Sent (Option HoldStatus)
get_hold_status http s ctx =
    with_context ctx (with_client s.local_proxy_client λ c. hold_status http c)

unfoldable pub release : Http → Server → Context → Sent (Unit {0})
release http s ctx = with_context ctx (with_client s.local_proxy_client λ c. release_self http c)

abbrev with_allocation : {A : Type 0} → Bytes → (Bytes → Sent A) → Sent A
with_allocation [] k = unsent (err not_allocated)
with_allocation (b ∷ id) k = k (b ∷ id)

unfoldable pub ready_for_players : Http → Server → Context → Sent (Unit {0})
ready_for_players http s ctx = with_context ctx (
    with_allocation s.allocated_uuid λ allocation_id.
      with_client s.local_proxy_client
        λ c. patch_allocation http c allocation_id (record { ready = true }))
