-- ===== src/Sqp/Decode/RoundTrip.antt =====
-- What sqp.go writes, read back.
use unity_gaming_services_go.Prelude.{
  ℕ, ◌+◌, ◌%◌, ◌^◌, sym, append-nil, ◌≤◌, ◌<◌, ◌≡◌, refl, ap, ◌∙◌, Bool, true, false, List, [], ◌∷◌,
  ◌++◌, Option, none, some, Bytes, word16-be16, word32-be32, if◌then◌else◌, leb, ◌&&◌, length, take,
  drop, arith, elems, All, append_assoc, length-append, length-take, take-append, drop-append,
}
use native.Mathlib.Nat.{mod-eq_of_lt}
use unity_gaming_services_go.Proto.Wire.{QueryState, big_endian, float32s_bytes}
use unity_gaming_services_go.Sqp.Info.{max_metrics, ServerInfo, query_state_to_server_info}
use unity_gaming_services_go.Sqp.Sizes.{
  text, info_content, metrics_content, chunk, reported_metrics, length-info_content,
  length-float32s,
}
use unity_gaming_services_go.Sqp.{wants_server_info, wants_metrics}
use unity_gaming_services_go.Sqp.Layout.{body, response}
use unity_gaming_services_go.Prelude.{ok}
use unity_gaming_services_go.Sqp.{answer}
use unity_gaming_services_go.Sqp.Info.{write_string}
use unity_gaming_services_go.Sqp.Sizes.{IsWindow, encoder-IsAppending}
use unity_gaming_services_go.Sqp.Layout.{answer-response}
use unity_gaming_services_go.Sqp.Decode.{
  Reader, decode, read8, read32, read_bytes, read_text, read_floats, read_info, read_metrics,
  read_chunk,
}

-- A text comes back cut to its length modulo 256, and the reader goes on behind the cut.
read_text-text :
    (s rest : Bytes)
    → read_text (text s ++ rest)
      ≡ some (take (length s % 256) (s ++ rest), drop (length s % 256) (s ++ rest))
unfolding read_text read8 read_bytes
read_text-text s rest = rw (fits) refl
  where
    fits : leb (length s % 256) (length (s ++ rest)) ≡ true
    fits = ground (arith, length-append s rest)

-- The SQP encoder writes any text without an error, and a reader gets it back cut to its length
-- modulo 256: a text of 256 bytes or more is cut, and the reader is left in the middle of it.
pub write_string-read_text :
    (s rest : Bytes)
    → (out : Bytes) × (write_string [] s ≡ ok out)
      × (read_text (out ++ rest)
          ≡ some (take (length s % 256) (s ++ rest), drop (length s % 256) (s ++ rest)))
write_string-read_text s rest =
    (text s, encoder-IsAppending.write_string_appends [] s, read_text-text s rest)

read_text_short : (s rest : Bytes) → length s < 256 → read_text (text s ++ rest) ≡ some (s, rest)
read_text_short s rest h =
    read_text-text s rest ∙ rw (mod-eq_of_lt h, take-append s rest, drop-append s rest)

read_floats-float32s :
    (ms : List ℕ) (rest : Bytes)
    → All (λ m. m < 4294967296) ms
    → read_floats (length ms) (float32s_bytes big_endian ms ++ rest) ≡ some (ms, rest)
unfolding read_floats read32
read_floats-float32s [] rest h = refl
read_floats-float32s (m ∷ ms) rest h = rw (word32-be32 m h.0, read_floats-float32s ms rest h.1)

-- Texts that their length byte can describe, and numbers that fit their fields.
pub record IsWire (si : ServerInfo) : Type 0 where
  pub current_fits : si.current_players < 65536
  pub max_fits : si.max_players < 65536
  pub name_fits : length si.server_name < 256
  pub type_fits : length si.game_type < 256
  pub build_fits : length si.build_id < 256
  pub map_fits : length si.game_map < 256
  pub port_fits : si.port < 65536

read_info-content :
    (si : ServerInfo) (rest : Bytes)
    → IsWire si
    → read_info (info_content si ++ rest) ≡ some (si, rest)
unfolding read_info
read_info-content si rest w =
    rw (word16-be16 _ w.current_fits, word16-be16 _ w.max_fits)
      (rw (append_assoc si.server_name, read_text_short si.server_name _ w.name_fits)
        (rw (append_assoc si.game_type, read_text_short si.game_type _ w.type_fits)
          (rw (append_assoc si.build_id, read_text_short si.build_id _ w.build_fits)
            (rw (append_assoc si.game_map, read_text_short si.game_map _ w.map_fits)
              (rw (word16-be16 _ w.port_fits))))))

read_metrics-content :
    (ms : List ℕ) (rest : Bytes)
    → All (λ m. m < 4294967296) ms
    → read_metrics (metrics_content ms ++ rest) ≡ some (ms, rest)
unfolding read_metrics read8
read_metrics-content ms rest h = read_floats-float32s ms rest h

-- What a chunk of a response is read as.
read_chunk-chunk :
    {A : Type 0} (m : Reader A) (content rest : Bytes) (a : A)
    → m (content ++ rest) ≡ some (a, rest)
    → read_chunk true m (chunk content ++ rest) ≡ some (some a, rest)
unfolding read_chunk read32
read_chunk-chunk m content rest a h = rw h

abbrev pub if_asked : {A : Type 0} → Bool → A → Option A
if_asked true a = some a
if_asked false a = none

read_chunk-part :
    {A : Type 0} (b : Bool) (m : Reader A) (content rest : Bytes) (a : A)
    → m (content ++ rest) ≡ some (a, rest)
    → read_chunk b m ((if b then chunk content else []) ++ rest) ≡ some (if_asked b a, rest)
read_chunk-part true m content rest a h = read_chunk-chunk m content rest a h
read_chunk-part false m content rest a h = unfold read_chunk in refl

abbrev metrics_part : QueryState → Bool → Bytes
metrics_part qs b = if b then chunk (metrics_content (reported_metrics qs)) else []

read_body :
    (qs : QueryState) (version chunks : ℕ)
    → IsWire (query_state_to_server_info (some qs))
    → read_chunk (wants_server_info chunks) read_info (body qs version chunks)
      ≡ some (
        if_asked (wants_server_info chunks) (query_state_to_server_info (some qs)),
        metrics_part qs (leb 2 version && wants_metrics chunks),
      )
unfolding body
read_body qs version chunks w =
    read_chunk-part (wants_server_info chunks) read_info
      (info_content (query_state_to_server_info (some qs))) _ _
      (read_info-content (query_state_to_server_info (some qs)) _ w)

read_metrics_part :
    (qs : QueryState) (b : Bool)
    → All (λ m. m < 4294967296) (reported_metrics qs)
    → read_chunk b read_metrics (metrics_part qs b) ≡ some (if_asked b (reported_metrics qs), [])
read_metrics_part qs b h =
    ap (read_chunk b read_metrics) (sym (append-nil (metrics_part qs b)))
    ∙ read_chunk-part b read_metrics (metrics_content (reported_metrics qs)) [] _
        (read_metrics-content (reported_metrics qs) [] h)

if_length :
    (b : Bool) (c : Bytes) (n : ℕ) → length c ≤ n → length (if b then chunk c else []) ≤ 4 + n
if_length true c n h = omega arith
if_length false c n h = omega arith

length-body-lt :
    (qs : QueryState) (version chunks : ℕ)
    → IsWire (query_state_to_server_info (some qs))
    → length (body qs version chunks) < 65536
unfolding body
length-body-lt qs version chunks w = omega (
  arith,
  length-append (if wants_server_info chunks then chunk (info_content info) else [])
      (metrics_part qs (leb 2 version && wants_metrics chunks)),
  if_length (wants_server_info chunks) (info_content info) 1100
      (omega (arith, length-info_content info)),
  if_length (leb 2 version && wants_metrics chunks) (metrics_content (reported_metrics qs)) 100 (
      omega
        (arith, length-float32s (reported_metrics qs), length-take max_metrics (elems qs.metrics))),
)
  where
    info : ServerInfo
    info = query_state_to_server_info (some qs)

-- The format, read back.
pub decode-response :
    (qs : QueryState) (challenge version chunks : ℕ)
    → challenge < 2 ^ 32
    → IsWire (query_state_to_server_info (some qs))
    → All (λ m. m < 4294967296) (reported_metrics qs)
    → decode
        (wants_server_info chunks)
        (leb 2 version && wants_metrics chunks)
        (response challenge (body qs version chunks))
      ≡ some (
        record {
          challenge = challenge;
          announced = length (body qs version chunks);
          info = if_asked (wants_server_info chunks) (query_state_to_server_info (some qs));
          metrics = if_asked (leb 2 version && wants_metrics chunks) (reported_metrics qs);
        },
        [],
      )
unfolding decode response
decode-response qs challenge version chunks hc w hm =
    rw (word32-be32 challenge hc, word16-be16 _ (length-body-lt qs version chunks w))
      (rw (read_body qs version chunks w) (rw (read_metrics_part qs _ hm)))

-- If the metrics lie within their array, the challenge has 32 bits, the numbers fit their fields
-- and the texts have fewer than 256 bytes, an accepted query gets an answer from which a reader
-- written from the SQP format gets back what was asked for, with nothing left over: the
-- challenge, the length of what follows the header, the server's information and at most ten
-- metrics.
pub answer-decode :
    (qs : QueryState) (challenge version chunks : ℕ)
    → IsWindow qs.metrics
    → challenge < 2 ^ 32
    → IsWire (query_state_to_server_info (some qs))
    → All (λ m. m < 4294967296) (reported_metrics qs)
    → (out : Bytes) × (answer (some qs) challenge version chunks ≡ ok out)
      × (decode (wants_server_info chunks) (leb 2 version && wants_metrics chunks) out
          ≡ some (
            record {
              challenge = challenge;
              announced = length (body qs version chunks);
              info = if_asked (wants_server_info chunks) (query_state_to_server_info (some qs));
              metrics = if_asked (leb 2 version && wants_metrics chunks) (reported_metrics qs);
            },
            [],
          ))
answer-decode qs challenge version chunks window hc w hm = (
  response challenge (body qs version chunks),
  answer-response qs challenge version chunks window,
  decode-response qs challenge version chunks hc w hm,
)
