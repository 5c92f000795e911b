-- ===== src/Sqp/Sizes.antt =====
-- The contents of an SQP response's chunks, and the sizes that `Size` (server_info.go,
-- metrics_info.go) and `PayloadLength` (sqp.go) give for them.
use Prim.Native.Nat.{min}
use unity_gaming_services_go.Prelude.{
  ℕ, zero, suc, ◌+◌, ◌*◌, ◌%◌, ◌^◌, ◌≤◌, ◌≡◌, refl, ap, List, [], ◌∷◌, ◌++◌, append-nil,
  append_assoc, some, ok, Bytes, be16, be32, length, length-append, length-take, take,
  length-replicate, drop_all, replicate, copy, Slice, elems, arith,
}
use unity_gaming_services_go.Proto.Wire.{
  QueryState, Scalar, big_endian, scalar_bytes, float32s_bytes,
}
use unity_gaming_services_go.Proto.Wire.Format.{IsAppending}
use unity_gaming_services_go.Sqp.Info.{ServerInfo, encoder, query_state_to_metrics, max_metrics}
use unity_gaming_services_go.Sqp.{add_payload}

-- A text behind one byte for its length.
abbrev pub text : Bytes → Bytes
text s = (length s % 256) ∷ s

abbrev pub num : Scalar → Bytes
num = scalar_bytes big_endian

mod_twice : (n : ℕ) → n % 256 % 256 ≡ n % 256
mod_twice n = omega arith

pub encoder-IsAppending : IsAppending encoder text num
encoder-IsAppending = record {
  write_string_appends =
      λ resp s. rw (mod_twice (length s)) (ap ok (append_assoc resp ((length s % 256) ∷ []) s));
  write_appends = λ resp v. refl;
}

-- The length function's slice condition: a slice's window lies in its array.
abbrev pub IsWindow {ℓ} : {A : Type ℓ} → Slice A → Type 0
IsWindow s = s.len ≤ length s.array

abbrev pub info_content : ServerInfo → Bytes
info_content si =
    be16 si.current_players
    ++ (be16 si.max_players
        ++ (text si.server_name
            ++ (text si.game_type ++ (text si.build_id ++ (text si.game_map ++ be16 si.port)))))

-- At most ten of the state's metrics.
abbrev pub reported_metrics : QueryState → List ℕ
reported_metrics qs = take max_metrics (elems qs.metrics)

abbrev pub metrics_content : List ℕ → Bytes
metrics_content ms = length ms ∷ float32s_bytes big_endian ms

-- A chunk of a response: its length in four bytes, and its content.
abbrev pub chunk : Bytes → Bytes
chunk content = be32 (length content) ++ content

-- What `Size` adds up, before it is cut to 32 bits.
abbrev pub info_length : ServerInfo → ℕ
info_length si =
    2
    + 2
    + (length si.server_name + 1)
    + (length si.game_type + 1)
    + (length si.build_id + 1)
    + (length si.game_map + 1)
    + 2

pub length-info_content : (si : ServerInfo) → length (info_content si) ≡ info_length si
length-info_content si = omega (
  arith,
  length-append si.server_name
      (text si.game_type ++ (text si.build_id ++ (text si.game_map ++ tail))),
  length-append si.game_type (text si.build_id ++ (text si.game_map ++ tail)),
  length-append si.build_id (text si.game_map ++ tail),
  length-append si.game_map tail,
)
  where
    tail : Bytes
    tail = be16 si.port

pub length-float32s : (ms : List ℕ) → length (float32s_bytes big_endian ms) ≡ length ms * 4
length-float32s [] = refl
length-float32s (m ∷ ms) = omega (arith, length-float32s ms)

pub copied : (l : ℕ) (xs : List ℕ) → l ≤ length xs → copy (replicate l 0) xs ≡ take l xs
copied l xs h =
    rw
      (
        length-replicate l zero,
        drop_all (length xs) (replicate l zero) (omega (arith, length-replicate l zero)),
      )
      (append-nil _)

take-length-take : (n : ℕ) (xs : List ℕ) → take (length (take n xs)) xs ≡ take n xs
take-length-take zero xs = refl
take-length-take (suc n) [] = refl
take-length-take (suc n) (x ∷ xs) = ap (λ t. x ∷ t) (take-length-take n xs)

pub metrics_of :
    (qs : QueryState)
    → IsWindow qs.metrics
    → query_state_to_metrics (some qs)
      ≡ ok (record { count = length (reported_metrics qs); values = reported_metrics qs })
unfolding query_state_to_metrics
metrics_of qs h = rw (
  copied l (elems qs.metrics) (omega (arith, lengths)),
  ← counted,
  take-length-take max_metrics (elems qs.metrics),
)
  where
    l : ℕ
    l = min qs.metrics.len max_metrics % 256

    lengths : length (elems qs.metrics) ≡ qs.metrics.len
    lengths = omega (arith, length-take qs.metrics.len qs.metrics.array)

    counted : length (reported_metrics qs) ≡ l
    counted = omega (arith, lengths, length-take max_metrics (elems qs.metrics))

be16_cong : (a b : ℕ) → a % 65536 ≡ b % 65536 → be16 a ≡ be16 b
be16_cong a b h = ground arith

be32_cong : (a b : ℕ) → a % 2 ^ 32 ≡ b % 2 ^ 32 → be32 a ≡ be32 b
be32_cong a b h = ground arith

-- The announced lengths, for a content `c` whose size the code has cut to 32 bits.
module _ (c : Bytes) (size : ℕ) (h : length c % 2 ^ 32 ≡ size) where
  pub announced : be32 size ≡ be32 (length c)
  announced = be32_cong size (length c) (omega arith)

  pub one_chunk : be16 (add_payload 0 size) ≡ be16 (length (chunk c ++ []))
  one_chunk = be16_cong _ _ (omega (arith, length-append c []))

  pub two_chunks :
      (d : Bytes) (size' : ℕ)
      → length d % 2 ^ 32 ≡ size'
      → be16 (add_payload (add_payload 0 size) size') ≡ be16 (length (chunk c ++ chunk d))
  two_chunks d size' k = be16_cong _ _ (omega (arith, length-append c (chunk d)))
