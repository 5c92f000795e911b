-- ===== src/LocalProxy/Subscription.antt =====
-- The subscription of client.go: Start, Stop and the handlers of centrifuge's answers. Its handler
-- of messages, OnPublish, is in `Server.Events`.
pub mod Signals
use unity_gaming_services_go.Prelude.{
  ℕ, zero, suc, if◌then◌else◌, ◌+◌, ◌++◌, List, [], ◌∷◌, Bool, true, false, Option, none, some,
  Outcome, ok, err, panic, Bytes, codes, take, bytes_eq,
}
use unity_gaming_services_go.Server.Settings.{GoError}
use unity_gaming_services_go.LocalProxy.Decimal.{ℤ, decimal}

-- The host without any "http://": `skip` bytes of one are still to be passed over.
abbrev scheme : Bytes
scheme = codes "http://"

without_scheme : ℕ → Bytes → Bytes
without_scheme skip [] = []
without_scheme (suc skip) (b ∷ host) = without_scheme skip host
without_scheme zero (b ∷ host) =
    let inside = without_scheme 6 host in
    let outside = without_scheme 0 host in
    if bytes_eq (take 7 (b ∷ host)) scheme then inside else b ∷ outside

unfoldable pub websocket_url : Bytes → Bytes
unfolding without_scheme
websocket_url host = codes "ws://" ++ (without_scheme 0 host ++ codes "/v1/connection/websocket")

-- What the centrifuge client answers: NewSubscription, and Subscribe of what it gives.
pub record Broker : Type 0 where
  pub new_subscription : Bytes → Outcome GoError (Unit {0})
  pub subscribe : Bytes → Outcome GoError (Unit {0})

-- Where `Start` stands: not called, at `<-c.chanSubscribed`, returned.
pub data Starting : Type 0 where
  idle : Starting
  awaiting : Starting
  finished : Outcome GoError (Unit {0}) → Starting

-- `url` is that of the centrifuge client, `sub` the channel of the subscription, `asked` the channels that NewSubscription was called
-- with, the last one first. `chan_subscribed` has no buffer: `blocked` is the number of handlers that
-- wait in a send to it, `retrying` that of the handlers asleep before a retry. `chan_error` is the server's, of capacity 1.
pub record Subscriber : Type 0 where
  pub url : Bytes
  pub server_id : ℤ
  pub sub : Option Bytes
  pub asked : List Bytes
  pub starting : Starting
  pub blocked : ℕ
  pub retrying : ℕ
  pub done : Bool
  pub chan_error : Option GoError

abbrev pub new_subscriber : Bytes → ℤ → Subscriber
new_subscriber host server_id = record {
  url = websocket_url host;
  server_id = server_id;
  sub = none;
  asked = [];
  starting = idle;
  blocked = 0;
  retrying = 0;
  done = false;
  chan_error = none;
}

abbrev pub channel_of : ℤ → Bytes
channel_of server_id = codes "server#" ++ decimal server_id

abbrev subscribed_to :
    Broker
    → Bytes
    → Subscriber
    → Outcome GoError (Unit {0})
    → Subscriber × Outcome GoError (Unit {0})
subscribed_to b channel c (ok u) = (record c { sub = some channel }, b.subscribe channel)
subscribed_to b channel c (err e) = (record c { sub = none }, err e)
subscribed_to b channel c panic = (c, panic)

-- `subscribe`. On an error of NewSubscription `c.sub` is nil.
unfoldable pub subscribe : Broker → Subscriber → Subscriber × Outcome GoError (Unit {0})
subscribe b c =
    let channel = channel_of c.server_id in
    subscribed_to b channel (record c { asked = channel ∷ c.asked }) (b.new_subscription channel)

-- `<-c.chanSubscribed`: a handler that waits in its send is let go.
abbrev receive : Subscriber → ℕ → Subscriber
receive c zero = record c { starting = awaiting }
receive c (suc n) = record c { starting = finished (ok tt); blocked = n }

abbrev connected : Subscriber → Outcome GoError (Unit {0}) → Subscriber
connected c (ok u) = receive c c.blocked
connected c (err e) = record c { starting = finished (err e) }
connected c panic = record c { starting = finished panic }

abbrev connect_if :
    Outcome GoError (Unit {0}) → Subscriber × Outcome GoError (Unit {0}) → Subscriber
connect_if connect (c, ok u) = connected c connect
connect_if connect (c, err e) = record c { starting = finished (err e) }
connect_if connect (c, panic) = record c { starting = finished panic }

-- `Start`, up to its return or its wait. `connect` is what Connect answers.
unfoldable pub start : Broker → Outcome GoError (Unit {0}) → Subscriber → Subscriber
unfolding subscribe
start b connect c = connect_if connect (subscribe b c)

-- `Stop`. `close` is what Close of the centrifuge client answers; a channel closed twice panics.
abbrev close_done :
    Outcome GoError (Unit {0}) → Subscriber → Bool → Subscriber × Outcome GoError (Unit {0})
close_done close c true = (c, panic)
close_done close c false = (record c { done = true }, close)

unfoldable pub stop :
    Outcome GoError (Unit {0}) → Subscriber → Subscriber × Outcome GoError (Unit {0})
stop close c = close_done close c c.done

-- An error that finds no room on the channel is dropped.
abbrev offered : GoError → Option GoError → Option GoError
offered e none = some e
offered e (some old) = some old

abbrev offer : Subscriber × Outcome GoError (Unit {0}) → Subscriber
offer (c, ok u) = c
offer (c, err e) = record c { chan_error = offered e c.chan_error }
offer (c, panic) = c

-- `OnSubscribeError` up to its sleep.
unfoldable pub on_subscribe_error : Subscriber → Subscriber
on_subscribe_error c = if c.done then c else record c { retrying = c.retrying + 1 }

abbrev retry_of : Broker → Subscriber → ℕ → Subscriber
retry_of b c zero = c
retry_of b c (suc n) = offer (subscribe b (record c { retrying = n }))

-- `OnSubscribeError` from its sleep on, of one of the handlers asleep.
unfoldable pub retry : Broker → Subscriber → Subscriber
unfolding subscribe
retry b c = retry_of b c c.retrying

abbrev succeed : Subscriber → Starting → Subscriber
succeed c awaiting = record c { starting = finished (ok tt) }
succeed c idle = record c { blocked = c.blocked + 1 }
succeed c (finished r) = record c { blocked = c.blocked + 1 }

-- `OnSubscribeSuccess`: its send goes to a waiting `Start`, or waits for a receiver.
unfoldable pub on_subscribe_success : Subscriber → Subscriber
on_subscribe_success c = succeed c c.starting

-- What centrifuge and the clock bring.
pub data Signal : Type 0 where
  success failure : Signal
  woken : Broker → Signal

unfoldable pub handle : Signal → Subscriber → Subscriber
unfolding on_subscribe_success on_subscribe_error retry
handle success c = on_subscribe_success c
handle failure c = on_subscribe_error c
handle (woken b) c = retry b c

unfoldable pub run : List Signal → Subscriber → Subscriber
unfolding handle
run [] c = c
run (signal ∷ signals) c = run signals (handle signal c)
