-- ===== src/Tests/Approvals.antt =====
-- Runs of the backfill's approvals.
use unity_gaming_services_go.Prelude.{
  ℕ, zero, suc, ◌++◌, ◌≡◌, refl, List, [], ◌∷◌, none, some, Option, ok, codes, ◌>>=◌ as bind,
}
use unity_gaming_services_go.Server.Settings.{Config, wrap, retry}
use unity_gaming_services_go.Server.{Server, push_error}
use unity_gaming_services_go.Matchmaker.{
  BackfillTicket, WebRequest, WebReply, Web, Traffic, token_request, approval_request, keep_alive,
}
use unity_gaming_services_go.Matchmaker.Approval.{
  IsAnswered, asked, told_to_retry, keep_alive_retries,
}
use unity_gaming_services_go.Prelude.{false}
use unity_gaming_services_go.Server.Settings.{with_defaults, delete_all, json_tags}
use unity_gaming_services_go.Matchmaker.Service.{BackfillServer}
use unity_gaming_services_go.Matchmaker.Service as Service
use unity_gaming_services_go.Tests.{config, server}
use unity_gaming_services_go.Matchmaker.Ticks.{Beat, tick, configured, keep_alive_backfill}
use unity_gaming_services_go.Matchmaker.Ticks.Traffics.{AllowedFrom, keep_alive_backfill-Allowed}

abbrev busy : WebReply
busy = record { status_code = 429; body = ok [] }

abbrev token_reply : WebReply
token_reply = record { status_code = 200; body = ok (codes "jwt") }

abbrev answer_to : ℕ → WebReply
answer_to zero = token_reply
answer_to (suc zero) = busy
answer_to (suc (suc zero)) = token_reply
answer_to (suc (suc (suc n))) = busy

-- Every approval is told to retry.
abbrev web : Web
web = record {
  new_request = λ m u. ok tt;
  answer = λ n r. ok (some (answer_to n));
  decode_token = λ b. ok (record { token = b; error = [] });
  decode_ticket = λ b. ok none;
}

abbrev silence : Traffic
silence = record { requests = []; closed = 0 }

abbrev allocated : Config
allocated = record config { allocated_uuid = codes "a1" }

abbrev keeper : Server
keeper = record server { current_config = allocated }

first : IsAnswered web allocated silence (codes "jwt") busy
first = record {
  get_made = refl;
  post_made = refl;
  body = codes "jwt";
  token_reply = refl;
  token_decoded = refl;
  approval_reply = refl;
}

second :
    IsAnswered web allocated
      (told_to_retry web allocated silence (codes "jwt") busy first)
      (codes "jwt")
      busy
second = record {
  get_made = refl;
  post_made = refl;
  body = codes "jwt";
  token_reply = refl;
  token_decoded = refl;
  approval_reply = refl;
}

abbrev sent : List WebRequest
sent = asked web allocated silence (codes "jwt") busy first

keep_alive_retries_example :
    ((ticket : Option BackfillTicket)
      → busy.status_code ≡ 200
      → bind busy.body web.decode_ticket ≡ ok ticket
      → (keep_alive web keeper silence).0 ≡ keeper)
    × (busy.status_code ≡ 429
        → (keep_alive web keeper silence).0
          ≡ push_error (wrap (codes "error approving backfill ticket") retry) keeper)
    × ((keep_alive web keeper silence).1.requests
        ≡ []
          ++ token_request allocated
            ∷ approval_request allocated (codes "jwt")
            ∷ token_request allocated
            ∷ approval_request allocated (codes "jwt")
            ∷ [])
keep_alive_retries_example =
    keep_alive_retries web keeper silence (codes "jwt") (codes "jwt") busy busy first second
      (λ e. cc) refl

abbrev keeper_service : BackfillServer
keeper_service = record { base = server; keeping = false; done = false }

abbrev loaded : Config
loaded = with_defaults (record config { extra = delete_all json_tags (λ k. some k) })

abbrev beats : List Beat
beats = tick ∷ configured config ∷ tick ∷ []

keep_alive_backfill-Allowed_example :
    AllowedFrom allocated beats silence (keep_alive_backfill web beats keeper silence).1
keep_alive_backfill-Allowed_example = keep_alive_backfill-Allowed web beats keeper silence
