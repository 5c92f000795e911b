-- ===== src/Tests/Servers.antt =====
-- Runs of the server.
use unity_gaming_services_go.Prelude.{
  Bytes, ◌≡◌, ◌>>=◌, refl, List, [], ◌∷◌, Option, some, Outcome, ok, err, panic, arith, codes,
}
use unity_gaming_services_go.LocalProxy.Decimal.{pos}
use unity_gaming_services_go.LocalProxy.{
  BaseEvent, allocate_event, allocate_event_type, unmarshal_event,
}
use unity_gaming_services_go.Server.Settings.{GoError, Config, with_defaults, delete_all, json_tags}
use unity_gaming_services_go.Server.{allocation}
use unity_gaming_services_go.Server.Events.{make_client}
use unity_gaming_services_go.Server.Events.Allocation.{
  IsConsistent, IsTyped, unmarshal_event-IsTyped, publish_all, replay, publish_all-replay,
}
use unity_gaming_services_go.Server.Queries.Service.{IsServing}
use unity_gaming_services_go.Server.Watcher.{changed, finished, watch_for_config_changes}
use unity_gaming_services_go.Server.Watcher.Latest.{Follows, configs, watch-Follows}
use unity_gaming_services_go.Tests.{config, files, server, serving, decoder, event_of}

abbrev pub linux : Bytes
linux = codes "linux"

pub serving-IsServing : IsServing serving
serving-IsServing = record {
  bound = λ e. cc;
  responds = λ e. cc;
  roomy = omega arith;
  window = omega arith;
}

abbrev present : BaseEvent → Outcome GoError (Option BaseEvent)
present x = ok (some x)

abbrev paired : Bytes → BaseEvent → Outcome GoError (BaseEvent × Bytes)
paired rest x = ok (x, rest)

consistent :
    (r : Outcome GoError BaseEvent) (rest : Bytes) (b c : BaseEvent) (id : Bytes)
    → (r >>= present) ≡ ok (some b)
    → (r >>= paired rest) ≡ ok (c, id)
    → c ≡ b
consistent (ok x) rest b c id h k = cc
consistent (err e) rest b c id h k = cc
consistent panic rest b c id h k = cc

decoder-IsConsistent : IsConsistent decoder
decoder-IsConsistent message b c id h k = consistent (event_of message) _ b c id h k

abbrev messages : List Bytes
messages = (0 ∷ 5 ∷ []) ∷ (9 ∷ []) ∷ (1 ∷ 5 ∷ []) ∷ (0 ∷ 6 ∷ []) ∷ []

unmarshal_event-IsTyped_example : IsTyped (
    allocate_event
      (record { typ = allocate_event_type; event_id = []; server_id = pos 7 })
      (5 ∷ []))
unfolding unmarshal_event
unmarshal_event-IsTyped_example =
    unmarshal_event-IsTyped decoder (0 ∷ 5 ∷ []) _ decoder-IsConsistent refl

publish_all-replay_example :
    publish_all decoder (make_client allocation [] (pos 7)) messages serving
    ≡ replay decoder messages (codes "a1")
publish_all-replay_example =
    publish_all-replay decoder [] (pos 7) messages serving decoder-IsConsistent refl refl

abbrev pub loaded : Config
loaded = with_defaults (record config { extra = delete_all json_tags (λ k. some k) })

watch-Follows_example :
    Follows server
      (configs 2 server.cfg_file (changed server.cfg_file 2 files ∷ finished ∷ []))
      (watch_for_config_changes 2 (changed server.cfg_file 2 files ∷ finished ∷ []) server).0
watch-Follows_example = watch-Follows 2 (changed server.cfg_file 2 files ∷ finished ∷ []) server
