-- ===== src/Tests/Responders.antt =====
-- Runs of the SQP and A2S responders.
use unity_gaming_services_go.Prelude.{Bytes, ◌≡◌, ◌++◌, [], ◌∷◌, some, ok, err, arith, codes, le32}
use unity_gaming_services_go.Proto.Challenge.{unexpected_eof}
use unity_gaming_services_go.Sqp.{answer}
use unity_gaming_services_go.Sqp.Layout.{body, response, answer-response}
use unity_gaming_services_go.A2s.{
  scan, a2s_info_request, parse_info_request, info_fields, s2c_challenge_response,
}
use unity_gaming_services_go.A2s as A2s
use unity_gaming_services_go.A2s.Parse.{NoNull, info_packet, parse_info_request_lem}
use unity_gaming_services_go.Tests.{state}

answer-response_example : answer (some state) 5 2 17 ≡ ok (response 5 (body state 2 17))
answer-response_example = answer-response state 5 2 17 (omega arith)

abbrev payload : Bytes
payload = codes "TSE"

payload-NoNull : NoNull payload
payload-NoNull = ((λ e. cc), ((λ e. cc), ((λ e. cc), tt)))

parse_info_request_lem_example :
    (parse_info_request (info_packet (payload ++ 0 ∷ (le32 5 ++ 1 ∷ [])))
      ≡ ok (record { payload = payload; challenge = 5 }))
    × (parse_info_request (info_packet (payload ++ 0 ∷ []))
        ≡ ok (record { payload = payload; challenge = 0 }))
    × (parse_info_request (info_packet payload) ≡ ok (record { payload = payload; challenge = 0 }))
    × (parse_info_request (info_packet (payload ++ 0 ∷ 9 ∷ [])) ≡ err unexpected_eof)
parse_info_request_lem_example =
    parse_info_request_lem payload (1 ∷ []) (9 ∷ []) 5 payload-NoNull (omega arith) (omega arith)
      (omega arith)

abbrev linux : Bytes
linux = codes "linux"
