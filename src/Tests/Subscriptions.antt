-- ===== src/Tests/Subscriptions.antt =====
-- Runs of the subscription to the local proxy.
use unity_gaming_services_go.Prelude.{
  ◌≤◌, ◌≡◌, ◌+◌, ◌-◌, refl, List, [], ◌∷◌, some, ok, err, panic, codes, length,
}
use unity_gaming_services_go.Server.Settings.{external}
use unity_gaming_services_go.LocalProxy.Decimal.{pos, decimal}
use unity_gaming_services_go.LocalProxy.Subscription.{
  Broker, Subscriber, new_subscriber, websocket_url, start, stop, Signal, success, failure, woken,
  run, finished,
}
use unity_gaming_services_go.LocalProxy.Subscription.Signals.{run-start, stop-quiets}

abbrev broker : Broker
broker = record { new_subscription = λ _. ok tt; subscribe = λ _. ok tt }

abbrev refusing : Broker
refusing = record {
  new_subscription = λ _. err (external (codes "duplicate"));
  subscribe = λ _. ok tt;
}

abbrev signals : List Signal
signals = failure ∷ woken broker ∷ success ∷ success ∷ []

-- Start returns at the first success; the handler of the second one is left in its send.
run-start_example :
    ((run signals
        (start broker (ok tt) (new_subscriber (codes "http://localhost:8086") (pos 42)))).starting
      ≡ finished (ok tt))
    × ((run signals
          (start broker (ok tt) (new_subscriber (codes "http://localhost:8086") (pos 42)))).blocked
        ≡ 2 - 1)
run-start_example =
    run-start broker signals (new_subscriber (codes "http://localhost:8086") (pos 42)) refl refl
      refl

-- A handler that sleeps when `Stop` comes subscribes once more.
abbrev sleeping : Subscriber
sleeping = record (new_subscriber (codes "http://localhost:8086") (pos 42)) { retrying = 1 }

asks_after_stop :
    (run (woken broker ∷ woken broker ∷ []) (stop (ok tt) sleeping).0).asked
    ≡ codes "server#42" ∷ []
unfolding run stop decimal
asks_after_stop = refl

refused_retry :
    (run (woken refusing ∷ []) sleeping).chan_error ≡ some (external (codes "duplicate"))
unfolding run
refused_retry = refl

stop-quiets_example :
    ((stop (ok tt) sleeping).1 ≡ ok tt)
    × (length (run (woken broker ∷ failure ∷ []) (stop (ok tt) sleeping).0).asked ≤ 0 + 1)
    × ((stop (ok tt) (run (woken broker ∷ failure ∷ []) (stop (ok tt) sleeping).0)).1 ≡ panic)
stop-quiets_example = stop-quiets sleeping (ok tt) (ok tt) (woken broker ∷ failure ∷ []) refl

connects_to :
    (new_subscriber (codes "http://localhost:8086") (pos 42)).url
    ≡ codes "ws://localhost:8086/v1/connection/websocket"
unfolding websocket_url
connects_to = refl
