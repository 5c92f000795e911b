-- ===== src/Tests/Clients.antt =====
-- Clients of the two query protocols against a server.
use unity_gaming_services_go.Prelude.{
  ◌≡◌, ◌++◌, ◌&&◌, refl, [], ◌∷◌, some, Bytes, arith, be32, le32, leb, codes, length,
}
use unity_gaming_services_go.Proto.Challenge.{no_challenges}
use unity_gaming_services_go.Sqp.{wants_server_info, wants_metrics}
use unity_gaming_services_go.Sqp.Sizes.{reported_metrics}
use unity_gaming_services_go.Sqp.Layout.{body}
use unity_gaming_services_go.Sqp.Decode as SqpDecode
use unity_gaming_services_go.Sqp.Decode.RoundTrip.{if_asked}
use unity_gaming_services_go.A2s.{environment_from_runtime, s2c_challenge_response}
use unity_gaming_services_go.A2s.Decode as A2sDecode
use unity_gaming_services_go.A2s.Parse.{NoNull}
use unity_gaming_services_go.Server.{Server, a2s_responder}
use unity_gaming_services_go.Server.Queries.{again, handle_query}
use unity_gaming_services_go.Server.Queries.Clients.{
  FitsSqp, FitsA2s, sqp_queries, a2s_queries, shown_by_sqp, shown_by_a2s, sqp_client_reads,
  a2s_client_reads,
}
use unity_gaming_services_go.Tests.{client, readings, state, serving}
use unity_gaming_services_go.Tests.Servers.{linux}

state-FitsSqp : FitsSqp state
state-FitsSqp = record {
  current_fits = omega arith;
  max_fits = omega arith;
  name_fits = omega arith;
  type_fits = omega arith;
  map_fits = omega arith;
  port_fits = omega arith;
  window = omega arith;
  metrics_fit = (omega arith, tt);
}

sqp_client_reads_example :
    let seen = handle_query linux (sqp_queries client readings readings 16909060 2 17) serving in
    (out : Bytes) × (seen.replies ≡ (client, 0 ∷ be32 16909060) ∷ (client, out) ∷ [])
    × (SqpDecode.decode (wants_server_info 17) (leb 2 2 && wants_metrics 17) out
        ≡ some (
          record {
            challenge = 16909060;
            announced = length (body state 2 17);
            info = if_asked (wants_server_info 17) (shown_by_sqp state);
            metrics = if_asked (leb 2 2 && wants_metrics 17) (reported_metrics state);
          },
          [],
        ))
    × (seen.next ≡ again)
sqp_client_reads_example =
    sqp_client_reads linux serving client no_challenges readings readings 1 2 3 4 2 17 refl refl
      (omega arith) refl (omega arith) (omega arith) state-FitsSqp

abbrev serving_a2s : Server
serving_a2s = record serving { query_proto = some (a2s_responder no_challenges) }

abbrev payload : Bytes
payload = codes "TSE"

payload-NoNull : NoNull payload
payload-NoNull = ((λ e. cc), ((λ e. cc), ((λ e. cc), tt)))

state-FitsA2s : FitsA2s state
state-FitsA2s = record {
  current_fits = omega arith;
  max_fits = omega arith;
  name_fits = ((λ e. cc), ((λ e. cc), ((λ e. cc), tt)));
  type_fits = ((λ e. cc), ((λ e. cc), ((λ e. cc), tt)));
  map_fits = ((λ e. cc), ((λ e. cc), tt));
}

a2s_client_reads_example :
    let seen =
      handle_query linux (a2s_queries client readings readings payload 16909060) serving_a2s in
    (out : Bytes) × (seen.replies
      ≡ (client, s2c_challenge_response ++ le32 16909060) ∷ (client, out) ∷ [])
    × (A2sDecode.decode out ≡ some (shown_by_a2s state (environment_from_runtime linux), []))
    × (seen.next ≡ again)
a2s_client_reads_example =
    a2s_client_reads linux serving_a2s client payload no_challenges readings readings 1 2 3 4 refl
      refl (omega arith) payload-NoNull refl (omega arith) (λ e. absurd (omega (arith, e)))
      state-FitsA2s
