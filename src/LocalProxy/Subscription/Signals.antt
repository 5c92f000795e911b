-- ===== src/LocalProxy/Subscription/Signals.antt =====
-- The subscription over any sequence of signals.
use unity_gaming_services_go.Prelude.{
  ℕ, zero, suc, ◌+◌, ◌-◌, ◌≤◌, ◌≡◌, refl, sym, subst, ◌∙◌, List, [], ◌∷◌, true, false, some,
  Outcome, ok, err, panic, Bytes, length, arith, Bool-cases, inl, inr,
}
use unity_gaming_services_go.Server.Settings.{GoError}
use unity_gaming_services_go.LocalProxy.Subscription.{
  Broker, Starting, idle, awaiting, finished, Subscriber, channel_of, subscribe, start, stop,
  on_subscribe_error, retry, on_subscribe_success, Signal, success, failure, woken, handle, run,
  retry_of, offer, subscribed_to, succeed,
}

abbrev pub successes : List Signal → ℕ
successes [] = 0
successes (success ∷ signals) = suc (successes signals)
successes (failure ∷ signals) = successes signals
successes (woken b ∷ signals) = successes signals

-- A signal that is no success leaves Start and its channel alone.
abbrev Same : Subscriber → Subscriber → Type 0
Same c d = (d.starting ≡ c.starting) × (d.blocked ≡ c.blocked)

offer-Same : (c : Subscriber) (r : Outcome GoError (Unit {0})) → Same c (offer (c, r))
offer-Same c (ok u) = (refl, refl)
offer-Same c (err e) = (refl, refl)
offer-Same c panic = (refl, refl)

subscribed-Same :
    (b : Broker) (channel : Bytes) (c : Subscriber) (r : Outcome GoError (Unit {0}))
    → Same c (offer (subscribed_to b channel c r))
subscribed-Same b channel c (ok u) =
    offer-Same (record c { sub = some channel }) (b.subscribe channel)
subscribed-Same b channel c (err e) = (refl, refl)
subscribed-Same b channel c panic = (refl, refl)

retry-Same : (b : Broker) (c : Subscriber) (n : ℕ) → Same c (retry_of b c n)
unfolding subscribe
retry-Same b c zero = (refl, refl)
retry-Same b c (suc n) =
    subscribed-Same b _ (record c { asked = _; retrying = n })
      (b.new_subscription (channel_of c.server_id))

error-Same : (c : Subscriber) → Same c (on_subscribe_error c)
unfolding on_subscribe_error
error-Same c = elim (Bool-cases c.done) [ inl d ↦ rw d (refl, refl) | inr d ↦ rw d (refl, refl) ]

succeed-finished :
    (c : Subscriber) (s : Starting) (r : Outcome GoError (Unit {0}))
    → s ≡ finished r
    → succeed c s ≡ record c { blocked = c.blocked + 1 }
succeed-finished c idle r e = absurd (cc)
succeed-finished c awaiting r e = absurd (cc)
succeed-finished c (finished q) r e = refl

succeed-awaiting :
    (c : Subscriber) (s : Starting)
    → s ≡ awaiting
    → succeed c s ≡ record c { starting = finished (ok tt) }
succeed-awaiting c idle e = absurd (cc)
succeed-awaiting c awaiting e = refl
succeed-awaiting c (finished q) e = absurd (cc)

run-finished :
    (signals : List Signal) (c : Subscriber) (r : Outcome GoError (Unit {0}))
    → c.starting ≡ finished r
    → ((run signals c).starting ≡ finished r)
      × ((run signals c).blocked ≡ c.blocked + successes signals)
unfolding run handle on_subscribe_success retry
run-finished [] c r e = (e, omega arith)
run-finished (success ∷ signals) c r e =
    let h = run-finished signals (record c { blocked = c.blocked + 1 }) r e in
    subst
      (λ d.
        ((run signals d).starting ≡ finished r)
        × ((run signals d).blocked ≡ c.blocked + successes (success ∷ signals)))
      (sym (succeed-finished c c.starting r e)) (h.0, omega (arith, h.1))
run-finished (failure ∷ signals) c r e =
    let k = error-Same c in
    let h = run-finished signals (on_subscribe_error c) r (k.0 ∙ e) in
    (h.0, omega (arith, h.1, k.1))
run-finished (woken b ∷ signals) c r e =
    let k = retry-Same b c c.retrying in
    let h = run-finished signals (retry b c) r (k.0 ∙ e) in (h.0, omega (arith, h.1, k.1))

-- What is left of `Start` after so many successes.
abbrev pub starting_after : ℕ → Starting
starting_after zero = awaiting
starting_after (suc n) = finished (ok tt)

run-awaiting :
    (signals : List Signal) (c : Subscriber)
    → c.starting ≡ awaiting
    → c.blocked ≡ 0
    → ((run signals c).starting ≡ starting_after (successes signals))
      × ((run signals c).blocked ≡ successes signals - 1)
unfolding run handle on_subscribe_success retry
run-awaiting [] c e z = (e, omega (arith, z))
run-awaiting (success ∷ signals) c e z =
    let h = run-finished signals (record c { starting = finished (ok tt) }) (ok tt) refl in
    subst
      (λ d.
        ((run signals d).starting ≡ finished (ok tt))
        × ((run signals d).blocked ≡ suc (successes signals) - 1))
      (sym (succeed-awaiting c c.starting e)) (h.0, omega (arith, h.1, z))
run-awaiting (failure ∷ signals) c e z =
    let k = error-Same c in run-awaiting signals (on_subscribe_error c) (k.0 ∙ e) (k.1 ∙ z)
run-awaiting (woken b ∷ signals) c e z =
    let k = retry-Same b c c.retrying in run-awaiting signals (retry b c) (k.0 ∙ e) (k.1 ∙ z)

-- For a client with no handler in its send, whose subscription is made and whose connection
-- succeeds: over any successes and failures of the subscription and any handlers woken from their
-- sleep, with whatever they are answered, Start has returned, without an error, exactly if there
-- has been a success, and every success but the first leaves a handler waiting in its send.
pub run-start :
    (b : Broker) (signals : List Signal) (c : Subscriber)
    → c.blocked ≡ 0
    → b.new_subscription (channel_of c.server_id) ≡ ok tt
    → b.subscribe (channel_of c.server_id) ≡ ok tt
    → ((run signals (start b (ok tt) c)).starting ≡ starting_after (successes signals))
      × ((run signals (start b (ok tt) c)).blocked ≡ successes signals - 1)
unfolding start subscribe
run-start b signals c z h k = rw (h, k) (rw z (run-awaiting signals _ refl z))

-- The subscriptions asked for, and the handlers asleep that will ask for one.
abbrev pub asking : Subscriber → ℕ
asking c = length c.asked + c.retrying

-- `done` stays closed, and the handlers asleep are all that asks.
abbrev Quiet : Subscriber → Subscriber → Type 0
Quiet c d = (d.done ≡ c.done) × (asking d ≡ asking c)

succeed-Quiet : (c : Subscriber) (s : Starting) → Quiet c (succeed c s)
succeed-Quiet c idle = (refl, refl)
succeed-Quiet c awaiting = (refl, refl)
succeed-Quiet c (finished r) = (refl, refl)

offer-Quiet : (c : Subscriber) (r : Outcome GoError (Unit {0})) → Quiet c (offer (c, r))
offer-Quiet c (ok u) = (refl, refl)
offer-Quiet c (err e) = (refl, refl)
offer-Quiet c panic = (refl, refl)

subscribed-Quiet :
    (b : Broker) (channel : Bytes) (c : Subscriber) (r : Outcome GoError (Unit {0}))
    → Quiet c (offer (subscribed_to b channel c r))
subscribed-Quiet b channel c (ok u) =
    offer-Quiet (record c { sub = some channel }) (b.subscribe channel)
subscribed-Quiet b channel c (err e) = (refl, refl)
subscribed-Quiet b channel c panic = (refl, refl)

retry-Quiet : (b : Broker) (c : Subscriber) (n : ℕ) → c.retrying ≡ n → Quiet c (retry_of b c n)
unfolding subscribe
retry-Quiet b c zero e = (refl, refl)
retry-Quiet b c (suc n) e =
    let h =
      subscribed-Quiet b _ (record c { asked = channel_of c.server_id ∷ c.asked; retrying = n })
        (b.new_subscription (channel_of c.server_id)) in
    (h.0, omega (arith, h.1, e))

handle-Quiet : (signal : Signal) (c : Subscriber) → c.done ≡ true → Quiet c (handle signal c)
unfolding handle on_subscribe_success on_subscribe_error retry
handle-Quiet success c d = succeed-Quiet c c.starting
handle-Quiet failure c d = rw d (refl, refl)
handle-Quiet (woken b) c d = retry-Quiet b c c.retrying refl

run-Quiet : (signals : List Signal) (c : Subscriber) → c.done ≡ true → Quiet c (run signals c)
unfolding run
run-Quiet [] c d = (refl, refl)
run-Quiet (signal ∷ signals) c d =
    let h = handle-Quiet signal c d in
    let k = run-Quiet signals (handle signal c) (h.0 ∙ d) in (k.0 ∙ h.0, k.1 ∙ h.1)

-- On a client not stopped before: Stop returns what Close of the centrifuge client answers;
-- whatever signals follow, at most one subscription is asked for by each handler that was asleep
-- at the time; and a second Stop panics.
pub stop-quiets :
    (c : Subscriber) (answer again : Outcome GoError (Unit {0})) (signals : List Signal)
    → c.done ≡ false
    → ((stop answer c).1 ≡ answer)
      × (length (run signals (stop answer c).0).asked ≤ length c.asked + c.retrying)
      × ((stop again (run signals (stop answer c).0)).1 ≡ panic)
unfolding stop
stop-quiets c answer again signals d =
    let k = run-Quiet signals (record c { done = true }) refl in
    rw d (refl, omega (arith, k.1), rw (k.0) refl)
