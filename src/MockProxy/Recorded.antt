-- ===== src/MockProxy/Recorded.antt =====
-- What the mock keeps of the requests it is sent.
use unity_gaming_services_go.Prelude.{
  ◌≡◌, refl, ap, sym, inl, inr, List, [], ◌∷◌, Bool, true, false, ◌&&◌, Option, some, Bytes, codes,
  bytes_eq, if◌then◌else◌, subst, bytes_eq→eq, Bool-cases,
}
use unity_gaming_services_go.LocalProxy.Requests.{PatchAllocationRequest, Request}
use unity_gaming_services_go.MockProxy.{
  MockLocalProxy, Codec, websocket_path, reservations_path, hold_path, allocation_id,
  allocation_path, handle_allocation, recorded, handle,
}

abbrev pub is_patch : Bytes → Request → Bool
is_patch path r = bytes_eq path allocation_path && bytes_eq r.method (codes "PATCH")

abbrev pub after : Codec → MockLocalProxy → Request → Bool → MockLocalProxy
after json mock r true = recorded mock (json.decode_patch r.body)
after json mock r false = mock

module _ (json : Codec) (mock : MockLocalProxy) (r : Request) where
  abbrev KeepsPatches : Bytes → Type 0
  KeepsPatches path = (handle json mock path r).0 ≡ after json mock r (is_patch path r)

  on_path : (path p : Bytes) → bytes_eq path p ≡ true → KeepsPatches p → KeepsPatches path
  on_path path p e = subst KeepsPatches (sym (bytes_eq→eq path p e))

  on_allocation : KeepsPatches allocation_path
  unfolding handle handle_allocation
  on_allocation = elim (Bool-cases (bytes_eq r.method (codes "PATCH"))) [
    | inl e ↦ rw e refl
    | inr e ↦ rw e refl
  ]

  -- Only a PATCH of the allocation changes the mock.
  pub handle-after : (path : Bytes) → KeepsPatches path
  unfolding handle handle_allocation
  handle-after path = elim (Bool-cases (bytes_eq path websocket_path)) [
    | inl e ↦ on_path path websocket_path e refl
    | inr e ↦ elim (Bool-cases (bytes_eq path (codes "/token"))) [
      | inl f ↦ on_path path (codes "/token") f refl
      | inr f ↦ elim (Bool-cases (bytes_eq path reservations_path)) [
        | inl g ↦ on_path path reservations_path g refl
        | inr g ↦ elim (Bool-cases (bytes_eq path hold_path)) [
          | inl h ↦ on_path path hold_path h refl
          | inr h ↦ elim (Bool-cases (bytes_eq path allocation_path)) [
            | inl i ↦ on_path path allocation_path i on_allocation
            | inr i ↦ rw (e, f, g, h, i) refl
          ]
        ]
      ]
    ]
  ]

-- The mock after requests, each with its path.
unfoldable pub serve : Codec → List (Bytes × Request) → MockLocalProxy → MockLocalProxy
serve json [] mock = mock
serve json ((path, r) ∷ requests) mock = serve json requests (handle json mock path r).0

abbrev patch_of :
    Codec → Request → Bool → Option PatchAllocationRequest → Option PatchAllocationRequest
patch_of json r true last = some (json.decode_patch r.body)
patch_of json r false last = last

-- What the last PATCH of the allocation asks for, `last` if there is none.
abbrev pub last_patch :
    Codec → List (Bytes × Request) → Option PatchAllocationRequest → Option PatchAllocationRequest
last_patch json [] last = last
last_patch json ((path, r) ∷ requests) last =
    last_patch json requests (patch_of json r (is_patch path r) last)

-- The allocation's record is what the last PATCH asks for, and nothing else has changed.
abbrev pub KeepsLast : Codec → List (Bytes × Request) → MockLocalProxy → MockLocalProxy → Type 0
KeepsLast json requests mock m =
    ((id : Bytes)
      → m.patch_allocation_requests id ≡ (
          if bytes_eq id allocation_id
          then last_patch json requests (mock.patch_allocation_requests allocation_id)
          else mock.patch_allocation_requests id))
    × (m.hold_status ≡ mock.hold_status)
    × (m.reserve_response ≡ mock.reserve_response)

flatten :
    {A : Type 0} {x : A} (y z w : A) (b : Bool)
    → x ≡ (if b then y else (if b then z else w))
    → x ≡ (if b then y else w)
flatten y z w true e = e
flatten y z w false e = e

after-KeepsLast :
    (json : Codec) (path : Bytes) (r : Request) (requests : List (Bytes × Request))
    (mock m : MockLocalProxy) (b : Bool)
    → is_patch path r ≡ b
    → KeepsLast json requests (after json mock r b) m
    → KeepsLast json ((path, r) ∷ requests) mock m
after-KeepsLast json path r requests mock m true e h =
    rw e ((λ id. flatten _ _ _ (bytes_eq id allocation_id) (h.0 id)), h.1, h.2)
after-KeepsLast json path r requests mock m false e h = rw e h

unrecorded :
    (f : Bytes → Option PatchAllocationRequest) (id : Bytes)
    → f id ≡ (if bytes_eq id allocation_id then f allocation_id else f id)
unrecorded f id = elim (Bool-cases (bytes_eq id allocation_id)) [
  | inl e ↦ rw e (ap f (bytes_eq→eq id allocation_id e))
  | inr e ↦ rw e refl
]

-- After any requests, the mock's record for its allocation is what the last PATCH of that
-- allocation asks for (its old one if there is none), and its other records, its hold status and
-- its reservation have not changed.
pub serve-KeepsLast :
    (json : Codec) (requests : List (Bytes × Request)) (mock : MockLocalProxy)
    → KeepsLast json requests mock (serve json requests mock)
unfolding serve
serve-KeepsLast json [] mock = (unrecorded mock.patch_allocation_requests, refl, refl)
serve-KeepsLast json ((path, r) ∷ requests) mock =
    after-KeepsLast json path r requests mock (serve json requests (handle json mock path r).0)
      (is_patch path r) refl
      (subst
        (λ m. KeepsLast json requests (after json mock r (is_patch path r)) (serve json requests m))
        (sym (handle-after json mock r path))
        (serve-KeepsLast json requests (after json mock r (is_patch path r))))
