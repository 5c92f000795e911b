-- ===== src/Sqp/Layout.antt =====
-- The bytes of an SQP query response, and the lengths that it announces.
use unity_gaming_services_go.Prelude.{
  ℕ, ◌%◌, ◌^◌, ◌<◌, ◌≡◌, refl, ap, ap₂, ◌∙◌, inl, inr, ◌&&◌, List, [], ◌∷◌, ◌++◌, append-nil,
  Option, none, some, ok, Bytes, be16, be32, leb, if◌then◌else◌, Bool-cases, length, length-take,
  elems, arith,
}
use native.Mathlib.Nat.{mod-eq_of_lt}
use unity_gaming_services_go.Sqp.Sizes.{
  text, num, encoder-IsAppending, IsWindow, info_content, reported_metrics, metrics_content, chunk,
  length-info_content, length-float32s, metrics_of, announced, one_chunk, two_chunks,
}
use unity_gaming_services_go.Proto.Wire.{QueryState, wire_write}
use unity_gaming_services_go.Proto.Wire.Format.{format, wire_write-format}
use unity_gaming_services_go.Sqp.Info.{
  ServerInfo, MetricsInfo, encoder, query_state_to_server_info, server_info_size, metrics_info_size,
  metrics_info_fields, max_metrics,
}
use unity_gaming_services_go.Sqp.{
  QueryWireFormat, query_fields, wants_server_info, wants_metrics, empty_format, add_payload,
  answer,
}

unfoldable pub body : QueryState → ℕ → ℕ → Bytes
body qs version chunks =
    (if wants_server_info chunks
      then chunk (info_content (query_state_to_server_info (some qs)))
      else [])
    ++ (if leb 2 version && wants_metrics chunks
        then chunk (metrics_content (reported_metrics qs))
        else [])

unfoldable pub response : ℕ → Bytes → Bytes
response challenge payload =
    (1 ∷ be32 challenge) ++ (be16 1 ++ (0 ∷ 0 ∷ (be16 (length payload) ++ payload)))

abbrev with_server_info : Option ServerInfo → QueryWireFormat → QueryWireFormat
with_server_info none f = f
with_server_info (some si) f = record f {
  server_info = some si;
  server_info_length = some (server_info_size si);
  payload_length = add_payload f.payload_length (server_info_size si);
}

abbrev metrics_info : List ℕ → MetricsInfo
metrics_info ms = record { count = length ms; values = ms }

abbrev with_metrics : Option (List ℕ) → QueryWireFormat → QueryWireFormat
with_metrics none f = f
with_metrics (some ms) f = record f {
  metrics_info = some (metrics_info ms);
  metrics_info_length = some (metrics_info_size (metrics_info ms));
  payload_length = add_payload f.payload_length (metrics_info_size (metrics_info ms));
}

-- The response with a given payload length, so that the two can be compared part by part.
abbrev frame : ℕ → Bytes → Bytes → Bytes
frame challenge len payload = (1 ∷ be32 challenge) ++ (be16 1 ++ (0 ∷ 0 ∷ (len ++ payload)))

abbrev info_chunk : Option ServerInfo → Bytes
info_chunk none = []
info_chunk (some si) = chunk (info_content si)

abbrev metrics_chunk : Option (List ℕ) → Bytes
metrics_chunk none = []
metrics_chunk (some ms) = chunk (metrics_content ms)

abbrev Fits : Option (List ℕ) → Type 0
Fits none = Unit {0}
Fits (some ms) = length ms < 256

module _ (ms : List ℕ) (h : length ms < 256) where
  metrics_size : length (metrics_content ms) % 2 ^ 32 ≡ metrics_info_size (metrics_info ms)
  unfolding metrics_info_size
  metrics_size = omega (arith, length-float32s ms)

  metrics_written :
      format text num (metrics_info_fields (metrics_info ms)) ++ [] ≡ metrics_content ms
  unfolding format
  metrics_written = rw (append-nil, append-nil, mod-eq_of_lt h)

info_size : (si : ServerInfo) → length (info_content si) % 2 ^ 32 ≡ server_info_size si
unfolding server_info_size
info_size si = rw (length-info_content si)

layout :
    (challenge : ℕ) (s : Option ServerInfo) (m : Option (List ℕ))
    → Fits m
    → format text num (query_fields (with_metrics m (with_server_info s (empty_format challenge))))
      ≡ frame challenge
          (be16 (length (info_chunk s ++ metrics_chunk m)))
          (info_chunk s ++ metrics_chunk m)
unfolding format
layout challenge none none h = refl
layout challenge (some si) none h =
    ap₂ (frame challenge) (one_chunk (info_content si) _ (info_size si))
      (ap₂ ◌++◌ (announced (info_content si) _ (info_size si)) refl)
layout challenge none (some ms) h =
    ap₂ (frame challenge)
      (one_chunk (metrics_content ms) _ (metrics_size ms h)
        ∙ ap (λ bs. be16 (length bs)) (append-nil (metrics_chunk (some ms))))
      (ap₂ ◌++◌ (announced (metrics_content ms) _ (metrics_size ms h)) (metrics_written ms h))
layout challenge (some si) (some ms) h =
    ap₂ (frame challenge)
      (two_chunks (info_content si) _ (info_size si) (metrics_content ms) _ (metrics_size ms h))
      (ap₂ (λ x y. x ++ (info_content si ++ y)) (announced (info_content si) _ (info_size si))
        (ap₂ ◌++◌ (announced (metrics_content ms) _ (metrics_size ms h)) (metrics_written ms h)))

-- If the metrics lie within their array, the reflective encoding of an accepted query's answer is
-- the response written by hand: type 1, the challenge, version 1, packet 0 of 0, the length of
-- what follows in two bytes, and the chunks asked for with their lengths in front (metrics from
-- version 2 on, at most ten).
pub answer-response :
    (qs : QueryState) (challenge version chunks : ℕ)
    → IsWindow qs.metrics
    → answer (some qs) challenge version chunks ≡ ok (response challenge (body qs version chunks))
unfolding answer response body
answer-response qs challenge version chunks h = elim (Bool-cases (wants_server_info chunks)) [
  | inl s ↦ elim (Bool-cases (leb 2 version && wants_metrics chunks)) [
    | inl m ↦ rw (s, m, metrics_of qs h) (written (some info) (some ms) fits)
    | inr m ↦ rw (s, m) (written (some info) none tt)
  ]
  | inr s ↦ elim (Bool-cases (leb 2 version && wants_metrics chunks)) [
    | inl m ↦ rw (s, m, metrics_of qs h) (written none (some ms) fits)
    | inr m ↦ rw (s, m) (written none none tt)
  ]
]
  where
    info : ServerInfo
    info = query_state_to_server_info (some qs)

    ms : List ℕ
    ms = reported_metrics qs

    fits : length ms < 256
    fits = omega (arith, length-take max_metrics (elems qs.metrics))

    written :
        (s : Option ServerInfo) (m : Option (List ℕ))
        → Fits m
        → wire_write encoder []
            (query_fields (with_metrics m (with_server_info s (empty_format challenge))))
          ≡ ok (
              frame challenge
                (be16 (length (info_chunk s ++ metrics_chunk m)))
                (info_chunk s ++ metrics_chunk m))
    written s m f = wire_write-format encoder-IsAppending _ [] ∙ ap ok (layout challenge s m f)
