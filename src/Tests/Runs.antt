-- ===== src/Tests/Runs.antt =====
-- Runs of a started server.
use unity_gaming_services_go.Prelude.{ok, List, [], ◌∷◌, false, none, some}
use unity_gaming_services_go.Server.{Server, with_query_read_buffer}
use unity_gaming_services_go.Server.Queries.{datagram}
use unity_gaming_services_go.Server.Watcher.{changed}
use unity_gaming_services_go.Server.Lifecycle.{Host, start}
use unity_gaming_services_go.Server.Running.{
  Action, joined, sets_metric, published, watched, queried, takes_error, act,
}
use unity_gaming_services_go.LocalProxy.Decimal.{pos}
use unity_gaming_services_go.Server.Binding.Loop.{Loop, loop, reading_checked}
use unity_gaming_services_go.Matchmaker.{Web}
use unity_gaming_services_go.Matchmaker.Service as Service
use unity_gaming_services_go.Matchmaker.Service.{BackfillServer}
use unity_gaming_services_go.Matchmaker.Running as Matchmaker
use unity_gaming_services_go.Tests.{
  client, proxy_client, serving, readings, files, server, host, decoder,
}
use unity_gaming_services_go.Tests.Servers.{linux}

abbrev actions : List Action
actions =
    joined
    ∷ sets_metric 9 7
    ∷ published decoder proxy_client (0 ∷ 5 ∷ [])
    ∷ watched 2 (changed server.cfg_file 2 files)
    ∷ queried linux (datagram client [] readings false none)
    ∷ takes_error
    ∷ sets_metric 10 7
    ∷ []

-- A player joins between the check of `Read` and the deadline.
abbrev joined_between : Loop
joined_between = record (loop (start host server).0) {
  work = reading_checked;
  server = (act joined (start host server).0).0;
}

-- A server with a read buffer of four bytes.
abbrev tight : Server
tight = with_query_read_buffer 4 serving

-- The local proxy answers.
abbrev answering : Host
answering = record host { proxy = record { int64_of = λ t. ok (pos 7); start = λ c. ok tt } }

-- The matchmaker asks to retry each approval.
abbrev busy : Web
busy = record {
  new_request = λ method url. ok tt;
  answer = λ n r. ok (some (record { status_code = 429; body = ok [] }));
  decode_token = λ body. ok (record { token = []; error = [] });
  decode_ticket = λ body. ok none;
}

abbrev matchmaker : BackfillServer
matchmaker = record { base = server; keeping = false; done = false }
