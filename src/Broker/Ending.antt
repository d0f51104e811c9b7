-- ===== src/Broker/Ending.antt =====
-- The one event that ends a run, and the queues of the clients.
use globuy.Prelude.{
  ℕ, ◌≤◌, ◌≡◌, refl, Bool, true, Option, none, some, List, [], ◌∷◌, ◌++◌, length, length-append,
  inl, inr, Bool-cases, arith, select_where, delete_where,
}
use globuy.Broker.Stream.{
  EventType, MonitorEvent, Payload, RunEventStream, Subscription, Item, item, fresh_stream,
  append_event, publish, publish_ending, ends_run, subscribe, unsubscribe, close_stream, deliver,
  cut_off_full, close_all, numbered_event,
}
use globuy.Broker.Order.{
  StreamCall, publishes, subscribes, unsubscribes, closes, stream_step, stream_run, IsOrdered,
  subscribe_replays, step-IsOrdered,
}

step_keeps_ending :
    (first : MonitorEvent) (s : RunEventStream) (c : StreamCall)
    → s.terminal_event ≡ some first
    → (stream_step s c).terminal_event ≡ some first
unfolding stream_step subscribe unsubscribe close_stream publish append_event
step_keeps_ending first s (publishes kind body now) h = ground arith
step_keeps_ending first s (subscribes queue_size uuid after now) h = h
step_keeps_ending first s (unsubscribes uuid) h = h
step_keeps_ending first s closes h = h

run_keeps_ending :
    (first : MonitorEvent) (s : RunEventStream) (cs : List StreamCall)
    → s.terminal_event ≡ some first
    → (stream_run s cs).terminal_event ≡ some first
unfolding stream_run
run_keeps_ending first s [] h = h
run_keeps_ending first s (c ∷ cs) h =
    run_keeps_ending first (stream_step s c) cs (step_keeps_ending first s c h)

publish_again :
    (first : MonitorEvent) (s : RunEventStream) (kind : EventType) (body : Payload) (now : ℕ)
    → s.terminal_event ≡ some first
    → ends_run kind ≡ true
    → publish kind body now s ≡ (first, s)
unfolding publish
publish_again first s kind body now h ending = rw (ending, h) refl

publish_first :
    (s : RunEventStream) (kind : EventType) (body : Payload) (now : ℕ)
    → s.terminal_event ≡ none
    → ends_run kind ≡ true
    → (publish kind body now s).1.terminal_event ≡ some (publish kind body now s).0
unfolding publish append_event
publish_first s kind body now h ending = ground arith

-- The first event that ends the run is the only one: whatever is called on the stream behind it,
-- any later event that would end the run is answered by the first one and changes nothing.
pub ends_once :
    (s : RunEventStream) (kind : EventType) (body : Payload) (now : ℕ)
    → s.terminal_event ≡ none
    → ends_run kind ≡ true
    → (cs : List StreamCall) (kind' : EventType) (body' : Payload) (now' : ℕ)
    → ends_run kind' ≡ true
    → let (first, after) = publish kind body now s in
      publish kind' body' now' (stream_run after cs) ≡ (first, stream_run after cs)
ends_once s kind body now open_yet ending cs kind' body' now' ending' =
    let first : MonitorEvent = (publish kind body now s).0 in
    let after : RunEventStream = (publish kind body now s).1 in
    publish_again first (stream_run after cs) kind' body' now'
      (run_keeps_ending first after cs (publish_first s kind body now open_yet ending)) ending'

-- Queues within their sizes.
abbrev pub Fits : List Subscription → Type 0
Fits [] = Unit {0}
Fits (s ∷ ss) = (1 ≤ s.maxsize) × (length s.queue ≤ s.maxsize) × Fits ss

Fits-append : (xs ys : List Subscription) → Fits xs → Fits ys → Fits (xs ++ ys)
Fits-append [] ys h k = k
Fits-append (x ∷ xs) ys h k = (h.0, h.1, Fits-append xs ys h.2 k)

Fits-deliver : (i : Item) (ss : List Subscription) → Fits ss → Fits (deliver i ss)
unfolding deliver
Fits-deliver i [] h = tt
Fits-deliver i (s ∷ ss) h = ground (arith, Fits-deliver i ss h.2, length-append s.queue (i ∷ []))

Fits-cut_off : (ss : List Subscription) → Fits ss → Fits (cut_off_full ss)
unfolding cut_off_full
Fits-cut_off [] h = tt
Fits-cut_off (s ∷ ss) h = ground (arith, Fits-cut_off ss h.2)

Fits-select :
    (p : Subscription → Bool) (ss : List Subscription) → Fits ss → Fits (select_where p ss)
Fits-select p [] h = tt
Fits-select p (s ∷ ss) h = ground (arith, Fits-select p ss h.2)

Fits-delete :
    (p : Subscription → Bool) (ss : List Subscription) → Fits ss → Fits (delete_where p ss)
Fits-delete p [] h = tt
Fits-delete p (s ∷ ss) h = ground (arith, Fits-delete p ss h.2)

Fits-close : (ss : List Subscription) → Fits ss → Fits (close_all ss)
Fits-close [] h = tt
Fits-close (s ∷ ss) h = (h.0, h.0, Fits-close ss h.2)

-- The queues of all clients of a stream, of those that have left it too.
abbrev pub AllFit : RunEventStream → Type 0
AllFit s = Fits s.subscribers × Fits s.dropped

append-AllFit :
    (kind : EventType) (body : Payload) (now : ℕ) (s : RunEventStream)
    → AllFit s
    → AllFit (append_event kind body now s).1
unfolding append_event
append-AllFit kind body now s h = (
  Fits-deliver (item (numbered_event s kind body now)) s.subscribers h.0,
  Fits-append (cut_off_full s.subscribers) s.dropped (Fits-cut_off s.subscribers h.0) h.1,
)

publish_ending-AllFit :
    (first : Option MonitorEvent) (kind : EventType) (body : Payload) (now : ℕ) (s : RunEventStream)
    → AllFit s
    → AllFit (publish_ending first kind body now s).1
publish_ending-AllFit none kind body now s h = append-AllFit kind body now s h
publish_ending-AllFit (some e) kind body now s h = h

publish-AllFit :
    (kind : EventType) (body : Payload) (now : ℕ) (s : RunEventStream)
    → AllFit s
    → AllFit (publish kind body now s).1
unfolding publish
publish-AllFit kind body now s h = elim (Bool-cases (ends_run kind)) [
  | inl ending ↦ rw ending (publish_ending-AllFit s.terminal_event kind body now s h)
  | inr plain ↦ rw plain (append-AllFit kind body now s h)
]

subscribe-AllFit :
    (queue_size uuid after now : ℕ) (s : RunEventStream)
    → IsOrdered s
    → AllFit s
    → AllFit (subscribe queue_size uuid after now s).1
unfolding subscribe
subscribe-AllFit queue_size uuid after now s o h =
    let fits = subscribe_replays queue_size uuid after now s o in
    ((omega arith, omega (arith, fits.3), h.0), h.1)

step-AllFit :
    (s : RunEventStream) (c : StreamCall) → IsOrdered s → AllFit s → AllFit (stream_step s c)
unfolding stream_step unsubscribe close_stream
step-AllFit s (publishes kind body now) o h = publish-AllFit kind body now s h
step-AllFit s (subscribes queue_size uuid after now) o h =
    subscribe-AllFit queue_size uuid after now s o h
step-AllFit s (unsubscribes uuid) o h =
    (Fits-delete _ s.subscribers h.0, Fits-append _ s.dropped (Fits-select _ s.subscribers h.0) h.1)
step-AllFit s closes o h =
    (tt, Fits-append (close_all s.subscribers) s.dropped (Fits-close s.subscribers h.0) h.1)

run-AllFit :
    (s : RunEventStream) (cs : List StreamCall) → IsOrdered s → AllFit s → AllFit (stream_run s cs)
unfolding stream_run
run-AllFit s [] o h = h
run-AllFit s (c ∷ cs) o h =
    run-AllFit (stream_step s c) cs (step-IsOrdered s c o) (step-AllFit s c o h)

-- After any calls on a new stream, no client's queue is longer than its size, whether the client
-- is still subscribed, was cut off, left, or was closed with the stream.
pub queues_bounded :
    (t r max_events : ℕ) (cs : List StreamCall)
    → AllFit (stream_run (fresh_stream t r max_events) cs)
unfolding fresh_stream
queues_bounded t r max_events cs =
    run-AllFit _ cs (record { below = omega arith; bounded = omega arith; numbers = tt }) (tt, tt)
