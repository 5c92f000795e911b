-- ===== src/Server/Events/Allocation.antt =====
-- The allocation that the server knows, as its events come in.
use unity_gaming_services_go.Prelude.{
  bytes_eq_refl, bytes_eq→eq, ◌++◌, List, [], ◌∷◌, false, Option, none, some, Outcome, ok, err,
  panic, Bytes, bytes_eq, ◌≡◌, ◌≢◌, refl, ap, ◌∙◌, sym, subst, ◌>>=◌, inl, inr, Bool-cases,
}
use unity_gaming_services_go.Server.Settings.{GoError}
use unity_gaming_services_go.LocalProxy.Decimal.{ℤ}
use unity_gaming_services_go.LocalProxy.{
  BaseEvent, Event, base_event, allocate_event, deallocate_event, EventDecoder, unmarshal_event,
  Client, new_client, register_callback, lookup_callback, allocate_event_type,
  deallocate_event_type, Callback, watch_allocation, watch_deallocation,
}
use unity_gaming_services_go.Server.{Server, allocation, push_error}
use unity_gaming_services_go.Server.Events.{
  run_callback, on_event, on_publish, make_client, Delivery, handled, ignored, waiting, crashed,
}

-- An event's type is that of its struct: an allocation is never of another type, nor is an event of
-- another type an allocation.
abbrev pub IsTyped : Event → Type 0
IsTyped (base_event b) = (b.typ ≢ allocate_event_type) × (b.typ ≢ deallocate_event_type)
IsTyped (allocate_event b id) = b.typ ≡ allocate_event_type
IsTyped (deallocate_event b id) = b.typ ≡ deallocate_event_type

-- The allocation that is left after an event.
abbrev pub next_allocation : Bytes → Event → Bytes
next_allocation id (base_event b) = id
next_allocation id (allocate_event b new) = new
next_allocation id (deallocate_event b old) = []

untouched :
    (cb : Option Callback) (b : BaseEvent) (s : Server)
    → run_callback cb (base_event b) s ≡ (s, ignored)
unfolding run_callback
untouched none b s = refl
untouched (some watch_allocation) b s = refl
untouched (some watch_deallocation) b s = refl

differ : (x y : Bytes) → bytes_eq x y ≡ false → x ≢ y
differ x y h e = cc (h, sym (bytes_eq_refl y), ap (λ z. bytes_eq z y) e)

-- The server and the delivery after an event, when both channels are empty.
abbrev after : Event → Server → Server
after (base_event b) s = s
after (allocate_event b id) s = record s { allocated_uuid = id; chan_allocated = some id }
after (deallocate_event b id) s = record s { allocated_uuid = []; chan_deallocated = some id }

abbrev delivery_of : Event → Delivery
delivery_of (base_event b) = ignored
delivery_of (allocate_event b id) = handled
delivery_of (deallocate_event b id) = handled

pub on_event-allocation :
    (url : Bytes) (n : ℤ) (ev : Event) (s : Server)
    → IsTyped ev
    → s.chan_allocated ≡ none
    → s.chan_deallocated ≡ none
    → on_event (ok ev) (make_client allocation url n) s ≡ (after ev s, delivery_of ev)
unfolding on_event make_client register_callback new_client lookup_callback run_callback
on_event-allocation url n (base_event b) s t ha hd =
    untouched (lookup_callback b.typ (make_client allocation url n).callbacks) b s
on_event-allocation url n (allocate_event b id) s t ha hd = rw (t, ha) refl
on_event-allocation url n (deallocate_event b id) s t ha hd = rw (t, hd) refl

-- Decoding a message twice gives the same base event.
abbrev pub IsConsistent : EventDecoder → Type 0
IsConsistent d =
    (message : Bytes) (b c : BaseEvent) (id : Bytes)
    → d.decode_base message ≡ ok (some b)
    → d.decode_allocation message ≡ ok (c, id)
    → c ≡ b

IsTyped-ok : (x y : Event) (r : Outcome GoError Event) → r ≡ ok x → r ≡ ok y → IsTyped x → IsTyped y
IsTyped-ok x y r hx hy t = let h : x ≡ y = cc in subst IsTyped h t

-- What an event is built from, once its type is known.
built :
    (d : EventDecoder) (message : Bytes) (b : BaseEvent) (make : BaseEvent → Bytes → Event)
    (ev : Event)
    → ((c : BaseEvent) (id : Bytes)
        → d.decode_allocation message ≡ ok (c, id)
        → IsTyped (make c id))
    → (r : Outcome GoError (BaseEvent × Bytes)) → d.decode_allocation message ≡ r
    → (r >>= λ p. ok (make p.0 p.1)) ≡ ok ev
    → IsTyped ev
built d message b make ev typed (ok (c, id)) hr h =
    IsTyped-ok (make c id) ev _ refl h (typed c id hr)
built d message b make ev typed (err e) hr h = cc
built d message b make ev typed panic hr h = cc

-- With a decoder that reads the same base event both times, what unmarshalEvent gives is an
-- allocation event exactly when its type is the allocation type, and likewise for deallocations.
pub unmarshal_event-IsTyped :
    (d : EventDecoder) (message : Bytes) (ev : Event)
    → IsConsistent d
    → unmarshal_event d message ≡ ok ev
    → IsTyped ev
unfolding unmarshal_event
unmarshal_event-IsTyped d message ev k h = decoded (d.decode_base message) refl
  where
    decoded : (r : Outcome GoError (Option BaseEvent)) → d.decode_base message ≡ r → IsTyped ev
    decoded (err e) hb = let h' = rw hb at h in cc
    decoded panic hb = let h' = rw hb at h in cc
    decoded (ok none) hb = let h' = rw hb at h in cc
    decoded (ok (some b)) hb = elim (Bool-cases (bytes_eq b.typ allocate_event_type)) [
      | inl alloc ↦
          built d message b allocate_event ev
            (λ c id hc. ap (λ x. x.typ) (k message b c id hb hc) ∙ bytes_eq→eq _ _ alloc) _ refl
            (rw (hb, alloc) at h)
      | inr no_alloc ↦ elim (Bool-cases (bytes_eq b.typ deallocate_event_type)) [
        | inl dealloc ↦
            built d message b deallocate_event ev
              (λ c id hc. ap (λ x. x.typ) (k message b c id hb hc) ∙ bytes_eq→eq _ _ dealloc) _ refl
              (rw (hb, no_alloc, dealloc) at h)
        | inr neither ↦
            let h' = rw (hb, no_alloc, neither) at h in
            IsTyped-ok (base_event b) ev _ refl h' (differ _ _ no_alloc, differ _ _ neither)
      ]
    ]

-- What the user receives on the two channels.
pub data Notice : Type 0 where
  allocated deallocated : Bytes → Notice

abbrev optional : {A : Type 0} → (A → Notice) → Option A → List Notice
optional f none = []
optional f (some a) = f a ∷ []

abbrev pub waiting_notices : Server → List Notice
waiting_notices s = optional allocated s.chan_allocated ++ optional deallocated s.chan_deallocated

-- A reader that empties both channels.
abbrev pub receive : Server → Server
receive s = record s { chan_allocated = none; chan_deallocated = none }

abbrev chain : Delivery → Server → Bytes × List Notice → Bytes × List Notice
chain crashed s later = (s.allocated_uuid, waiting_notices s)
chain handled s later = (later.0, waiting_notices s ++ later.1)
chain ignored s later = (later.0, waiting_notices s ++ later.1)
chain waiting s later = (later.0, waiting_notices s ++ later.1)

-- A sequence of messages, with a reader after each: the server's allocation in the end and what was
-- received. A crash ends the process.
abbrev pub publish_all : EventDecoder → Client → List Bytes → Server → Bytes × List Notice
publish_all d c [] s = (s.allocated_uuid, [])
publish_all d c (m ∷ ms) s =
    let p = on_publish d c m s in chain p.1 p.0 (publish_all d c ms (receive p.0))

-- What the messages mean on their own: the allocation after them, and a notice for each event of an
-- allocation or a deallocation.
abbrev notice_of : Event → List Notice
notice_of (base_event b) = []
notice_of (allocate_event b id) = allocated id ∷ []
notice_of (deallocate_event b id) = deallocated id ∷ []

abbrev before : Bytes → Outcome GoError Event → (Bytes → Bytes × List Notice) → Bytes × List Notice
before id (ok ev) later = let r = later (next_allocation id ev) in (r.0, notice_of ev ++ r.1)
before id (err e) later = later id
before id panic later = (id, [])

abbrev pub replay : EventDecoder → List Bytes → Bytes → Bytes × List Notice
replay d [] id = (id, [])
replay d (m ∷ ms) id = before id (unmarshal_event d m) (λ next. replay d ms next)

after_event :
    (ev : Event) (s : Server)
    → s.chan_allocated ≡ none
    → s.chan_deallocated ≡ none
    → (later spec : Bytes × List Notice) → later ≡ spec
    → chain (delivery_of ev) (after ev s) later ≡ (spec.0, notice_of ev ++ spec.1)
after_event (base_event b) s ha hd later spec h = rw (ha, hd, h) refl
after_event (allocate_event b id) s ha hd later spec h = rw (hd, h) refl
after_event (deallocate_event b id) s ha hd later spec h = rw (ha, h) refl

next-after :
    (ev : Event) (s : Server) → (after ev s).allocated_uuid ≡ next_allocation s.allocated_uuid ev
next-after (base_event b) s = refl
next-after (allocate_event b id) s = refl
next-after (deallocate_event b id) s = refl

module _ (d : EventDecoder) (url : Bytes) (n : ℤ) (ms : List Bytes) (k : IsConsistent d) where
  Replays : Server → Type 0
  Replays t = publish_all d (make_client allocation url n) ms t ≡ replay d ms t.allocated_uuid

  publish-replay :
      (m : Bytes) (s : Server)
      → s.chan_allocated ≡ none
      → s.chan_deallocated ≡ none
      → ((t : Server) → Replays (receive t))
      → (r : Outcome GoError Event) → unmarshal_event d m ≡ r
      → (let p = on_event r (make_client allocation url n) s in
          chain p.1 p.0 (publish_all d (make_client allocation url n) ms (receive p.0)))
        ≡ before s.allocated_uuid r (λ next. replay d ms next)
  unfolding Replays on_event push_error
  publish-replay m s ha hd ih (ok ev) h =
      rw (on_event-allocation url n ev s (unmarshal_event-IsTyped d m ev k h) ha hd)
        (after_event ev s ha hd _ _ (ih (after ev s) ∙ ap (replay d ms) (next-after ev s)))
  publish-replay m s ha hd ih (err e) h = rw (ha, hd) (ih (push_error e s))
  publish-replay m s ha hd ih panic h = rw (ha, hd) refl

-- For an allocation server that starts with both channels empty, and a decoder that reads the
-- same base event both times: after any messages, with a reader after each, the server's
-- allocation and the IDs received on the two channels are those that the messages' events give on
-- their own, in order. Messages that do not decode change nothing, and a panic of the decoding
-- ends the run.
pub publish_all-replay :
    (d : EventDecoder) (url : Bytes) (n : ℤ) (ms : List Bytes) (s : Server)
    → IsConsistent d
    → s.chan_allocated ≡ none
    → s.chan_deallocated ≡ none
    → publish_all d (make_client allocation url n) ms s ≡ replay d ms s.allocated_uuid
unfolding on_publish Replays
publish_all-replay d url n [] s k ha hd = refl
publish_all-replay d url n (m ∷ ms) s k ha hd =
    publish-replay d url n ms k m s ha hd
      (λ t. publish_all-replay d url n ms (receive t) k refl refl) _ refl
