-- ===== src/Server/Texts.antt =====
-- The texts of errors, as `Error` gives them (base.go, sqp/errors.go, a2s/errors.go, server.go,
-- query.go, bind.go, model/error.go, and backfill.go and backfill_internal.go of matchmaker/server).
use unity_gaming_services_go.Prelude.{
  ◌<◌, ◌++◌, ◌≡◌, refl, ap, Option, none, some, Bytes, codes, All, bytes_eq, take, drop,
  if◌then◌else◌,
}
use unity_gaming_services_go.LocalProxy.Decimal.RoundTrip.{read_digits, decimal-read}
use unity_gaming_services_go.LocalProxy.Requests.{unexpected_response_text}
use unity_gaming_services_go.Proto.Challenge.{
  QueryError, challenge_malformed, challenge_mismatch, no_challenge, rand_failure,
  invalid_packet_length, unsupported_query, not_an_info_request, unexpected_eof,
  unsupported_sqp_version, unsupported_query_header,
}
use unity_gaming_services_go.Proto.Errors.{
  unhex, unhex-hex, unsupported_sqp_version_text, unsupported_query_text,
}
use unity_gaming_services_go.Server.Settings.{
  GoError, operation_not_applicable, nil_context, nil_args, metrics_unsupported,
  metric_out_of_bounds, not_allocated, unsupported_query_type, binding_closed, eof, token_fetch,
  retry, backfill_approve, backfill_not_allocated, query, unexpected_response, external, wrap,
}

-- The texts that package io and the random source give their errors.
pub record Foreign : Type 0 where
  pub short_read : Bytes
  pub no_random : Bytes

-- The texts that stand in a file of their own.
abbrev err_invalid_packet_length : Bytes
err_invalid_packet_length = codes "invalid packet length"

abbrev err_unsupported_query : Bytes
err_unsupported_query = codes "unsupported query"

abbrev err_not_an_info_request : Bytes
err_not_an_info_request = codes "not an info request"

abbrev err_unsupported_query_type : Bytes
err_unsupported_query_type = codes "supplied query type is not supported"

abbrev err_binding_closed : Bytes
err_binding_closed = codes "binding is closed"

abbrev err_backfill_approve : Bytes
err_backfill_approve = codes "failed to approve backfill ticket"

abbrev err_token_fetch : Bytes
err_token_fetch = codes "failed to retrieve JWT token"

abbrev err_retry : Bytes
err_retry = codes "retry"

unfoldable pub query_error_text : Foreign → QueryError → Bytes
query_error_text f challenge_malformed = codes "challenge malformed"
query_error_text f challenge_mismatch = codes "challenge mismatch"
query_error_text f no_challenge = codes "no challenge"
query_error_text f rand_failure = f.no_random
query_error_text f invalid_packet_length = err_invalid_packet_length
query_error_text f unsupported_query = err_unsupported_query
query_error_text f not_an_info_request = err_not_an_info_request
query_error_text f unexpected_eof = f.short_read
query_error_text f (unsupported_sqp_version v) = unsupported_sqp_version_text v
query_error_text f (unsupported_query_header h) = unsupported_query_text h

-- `fmt.Errorf` with `: %w` behind a text.
unfoldable pub error_text : Foreign → GoError → Bytes
error_text f operation_not_applicable =
    codes "the operation requested is not applicable to the server type"
error_text f nil_context = codes "context is nil"
error_text f nil_args = codes "arguments supplied are nil"
error_text f metrics_unsupported = codes "metrics are not supported for this query type"
error_text f metric_out_of_bounds = codes "metrics index provided will overflow the metrics buffer"
error_text f not_allocated = codes "server is not allocated"
error_text f unsupported_query_type = err_unsupported_query_type
error_text f binding_closed = err_binding_closed
error_text f eof = codes "EOF"
error_text f token_fetch = err_token_fetch
error_text f retry = err_retry
error_text f backfill_approve = err_backfill_approve
error_text f backfill_not_allocated = codes "server is not allocated"
error_text f (query e) = query_error_text f e
error_text f (unexpected_response id status body) = unexpected_response_text id status body
error_text f (external text) = text
error_text f (wrap text e) = text ++ (codes ": " ++ error_text f e)

-- The refusals of this repository, of which an unsupported header is bytes.
abbrev pub IsRefusal : QueryError → Type 0
IsRefusal rand_failure = ⊥
IsRefusal unexpected_eof = ⊥
IsRefusal (unsupported_query_header h) = All (λ b. b < 256) h
IsRefusal e = Unit {0}

-- The refusal that a text stands for.
unfoldable pub refusal : Bytes → Option QueryError
refusal t =
    if bytes_eq t (codes "challenge malformed")
    then some challenge_malformed
    else if bytes_eq t (codes "challenge mismatch")
    then some challenge_mismatch
    else if bytes_eq t (codes "no challenge")
    then some no_challenge
    else if bytes_eq t (codes "invalid packet length")
    then some invalid_packet_length
    else if bytes_eq t (codes "unsupported query")
    then some unsupported_query
    else if bytes_eq t (codes "not an info request")
    then some not_an_info_request
    else if bytes_eq (take 25 t) (codes "unsupported sqp version: ")
    then some (unsupported_sqp_version (read_digits 0 (drop 25 t)))
    else if bytes_eq (take 19 t) (codes "unsupported query: ")
    then some (unsupported_query_header (unhex (drop 19 t)))
    else none

-- The text of a refusal tells which one it is, with its version or its header, whatever texts the
-- errors of packages have.
pub refusal-query_error_text :
    (f : Foreign) (e : QueryError) → IsRefusal e → refusal (query_error_text f e) ≡ some e
unfolding refusal query_error_text unsupported_sqp_version_text unsupported_query_text
refusal-query_error_text f challenge_malformed h = refl
refusal-query_error_text f challenge_mismatch h = refl
refusal-query_error_text f no_challenge h = refl
refusal-query_error_text f rand_failure h = absurd h
refusal-query_error_text f invalid_packet_length h = refl
refusal-query_error_text f unsupported_query h = refl
refusal-query_error_text f not_an_info_request h = refl
refusal-query_error_text f unexpected_eof h = absurd h
refusal-query_error_text f (unsupported_sqp_version v) h =
    ap (λ n. some (unsupported_sqp_version n)) (decimal-read v).0
refusal-query_error_text f (unsupported_query_header d) h =
    ap (λ n. some (unsupported_query_header n)) (unhex-hex d h)
