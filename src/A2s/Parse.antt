-- ===== src/A2s/Parse.antt =====
-- `parseInfoRequest` of a2s.go on every buffer that begins as an A2S_INFO request.
use unity_gaming_services_go.Prelude.{
  ℕ, suc, ◌+◌, ◌-◌, ◌^◌, ◌<◌, ◌≡◌, ◌≢◌, refl, ap, sym, ◌∙◌, true, false, [], ◌∷◌, ◌++◌, ok, err,
  ◌>>=◌, Bytes, le32, word32-be32, length, take, drop, leb, if◌then◌else◌, arith, All,
  length-append, take-append, drop-append, append-nil, take_all,
}
use unity_gaming_services_go.Proto.Challenge.{unexpected_eof}
use unity_gaming_services_go.A2s.{
  a2s_info_request, scan, read_full, read_payload, le_uint32, parse_info_request,
}
use unity_gaming_services_go.A2s.Scan.{terminator, scan-terminator}

abbrev pub NoNull : Bytes → Type 0
NoNull = All λ b. b ≢ 0

terminator-null :
    (payload rest : Bytes) (n : ℕ)
    → NoNull payload
    → terminator (payload ++ 0 ∷ rest) n ≡ n + length payload
unfolding terminator
terminator-null [] rest n h = omega arith
terminator-null (b ∷ payload) rest n h = ground (arith, terminator-null payload rest (n + 1))

terminator_end :
    (payload : Bytes) (n : ℕ) → NoNull payload → terminator payload n ≡ n + length payload
unfolding terminator
terminator_end [] n h = omega arith
terminator_end (b ∷ payload) n h = ground (arith, terminator_end payload (n + 1))

payload_read :
    (payload rest : Bytes) (l : ℕ)
    → l ≡ length payload
    → read_payload l (payload ++ rest) ≡ ok (payload, rest)
unfolding read_payload read_full
payload_read [] rest l h = rw h
payload_read (b ∷ payload) rest l h =
    rw (h, take-append payload rest, drop-append payload rest)
      (ground (arith, length-append payload rest))

abbrev pub info_packet : Bytes → Bytes
info_packet rest = a2s_info_request ++ rest

-- The slice behind the header.
module _ (rest : Bytes) where
  pub within : leb 5 (suc (suc (suc (suc (suc (length rest)))))) ≡ true
  within = ground arith

  pub whole :
      leb (suc (suc (suc (suc (suc (length rest)))))) (suc (suc (suc (suc (suc (length rest))))))
      ≡ true
  whole = ground arith

  behind_header : take (suc (suc (suc (suc (suc (length rest))))) - 5) rest ≡ rest
  behind_header = take_all _ rest (omega arith)

scanned :
    (rest : Bytes)
    → scan (info_packet rest) (suc (suc (suc (suc (suc (length rest)))))) 5 ≡ terminator rest 5
scanned rest =
    scan-terminator (info_packet rest) (suc (suc (suc (suc (suc (length rest)))))) 5 (omega arith)

-- What is left to do once the payload is known to end at `n`.
parse_at :
    (rest payload after : Bytes)
    → terminator rest 5 ≡ 5 + length payload
    → rest ≡ payload ++ after
    → parse_info_request (info_packet rest) ≡ (
        if leb (length (info_packet rest)) (5 + length payload + 1)
        then ok (record { payload = payload; challenge = 0 })
        else (le_uint32 (drop 1 after) >>= λ c. ok (record { payload = payload; challenge = c })))
unfolding parse_info_request
parse_at rest payload after e split =
    rw (within rest, whole rest, behind_header rest, scanned rest, e)
      (rw (
        ap (read_payload (5 + length payload - 5)) split
        ∙ payload_read payload after _ (omega arith)))

terminated :
    (payload tail : Bytes)
    → NoNull payload
    → parse_info_request (info_packet (payload ++ 0 ∷ tail)) ≡ (
        if leb (length (info_packet (payload ++ 0 ∷ tail))) (5 + length payload + 1)
        then ok (record { payload = payload; challenge = 0 })
        else (le_uint32 tail >>= λ c. ok (record { payload = payload; challenge = c })))
terminated payload tail h =
    parse_at (payload ++ 0 ∷ tail) payload (0 ∷ tail) (terminator-null payload tail 5 h) refl

-- A challenge behind the terminator, with whatever follows it.
pub parse-challenge :
    (payload rest : Bytes) (c : ℕ)
    → NoNull payload
    → c < 2 ^ 32
    → parse_info_request (info_packet (payload ++ 0 ∷ (le32 c ++ rest)))
      ≡ ok (record { payload = payload; challenge = c })
unfolding le_uint32
parse-challenge payload rest c h hc =
    terminated payload (le32 c ++ rest) h ∙ rw (longer) (rw (word32-be32 c hc))
  where
    longer :
        leb (length (info_packet (payload ++ 0 ∷ (le32 c ++ rest)))) (5 + length payload + 1)
        ≡ false
    longer = ground (arith, length-append payload (0 ∷ (le32 c ++ rest)))

-- No room for a challenge: the request ends at the terminator, or has none.
pub parse-no_challenge :
    (payload : Bytes)
    → NoNull payload
    → (parse_info_request (info_packet (payload ++ 0 ∷ []))
        ≡ ok (record { payload = payload; challenge = 0 }))
      × (parse_info_request (info_packet payload)
          ≡ ok (record { payload = payload; challenge = 0 }))
parse-no_challenge payload h = (
  terminated payload [] h ∙ rw ends,
  parse_at payload payload [] (terminator_end payload 5 h) (sym (append-nil payload)) ∙ rw short,
)
  where
    ends : leb (length (info_packet (payload ++ 0 ∷ []))) (5 + length payload + 1) ≡ true
    ends = ground (arith, length-append payload (0 ∷ []))

    short : leb (length (info_packet payload)) (5 + length payload + 1) ≡ true
    short = ground arith

-- Behind the terminator a challenge takes four bytes or none.
pub parse-cut :
    (payload cut : Bytes)
    → NoNull payload
    → 0 < length cut
    → length cut < 4
    → parse_info_request (info_packet (payload ++ 0 ∷ cut)) ≡ err unexpected_eof
unfolding le_uint32
parse-cut payload cut h lo hi = terminated payload cut h ∙ rw (longer, too_short cut hi)
  where
    longer : leb (length (info_packet (payload ++ 0 ∷ cut))) (5 + length payload + 1) ≡ false
    longer = ground (arith, length-append payload (0 ∷ cut))

    too_short : (xs : Bytes) → length xs < 4 → le_uint32 xs ≡ err unexpected_eof
    too_short (a ∷ b ∷ c ∷ d ∷ xs) k = absurd (omega arith)
    too_short _ k = refl

-- For a payload without null bytes behind the A2S_INFO header: followed by a null byte and a
-- 32-bit challenge, both are read back, whatever follows; ended by the null byte, or without one,
-- the challenge reads as 0; with one to three bytes behind the null byte, the request is refused.
pub parse_info_request_lem :
    (payload rest cut : Bytes) (c : ℕ)
    → NoNull payload
    → c < 2 ^ 32
    → 0 < length cut
    → length cut < 4
    → (parse_info_request (info_packet (payload ++ 0 ∷ (le32 c ++ rest)))
        ≡ ok (record { payload = payload; challenge = c }))
      × (parse_info_request (info_packet (payload ++ 0 ∷ []))
          ≡ ok (record { payload = payload; challenge = 0 }))
      × (parse_info_request (info_packet payload)
          ≡ ok (record { payload = payload; challenge = 0 }))
      × (parse_info_request (info_packet (payload ++ 0 ∷ cut)) ≡ err unexpected_eof)
parse_info_request_lem payload rest cut c h hc lo hi = (
  parse-challenge payload rest c h hc,
  (parse-no_challenge payload h).0,
  (parse-no_challenge payload h).1,
  parse-cut payload cut h lo hi,
)
