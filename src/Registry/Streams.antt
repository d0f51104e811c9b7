-- ===== src/Registry/Streams.antt =====
-- The stream of one run in the broker's table: open while its task runs, and ended once.
use globuy.Prelude.{
  ℕ, ◌≡◌, refl, true, false, ◌&&◌, Option, none, some, ◌==◌, inl, inr, Bool-cases, arith,
}
use globuy.Broker.Stream.{
  EventType, Payload, MonitorEvent, RunEventStream, ends_run, publish, append_event, subscribe,
  unsubscribe,
}
use globuy.Broker.Order.{stream_step}
use globuy.Broker.Table.{EventBroker, find_stream, publish_to}
use globuy.Broker.Isolation.{
  Request, to_publish, to_subscribe, to_unsubscribe, perform_on, on_stream, perform_same,
  perform_other, perform_at,
}

-- The run's stream is in the table, and no event has ended it.
pub record HasOpen (t r : ℕ) (b : EventBroker) : Type 0 where
  pub stream : RunEventStream
  pub found : find_stream t r b ≡ some stream
  pub unended : stream.terminal_event ≡ none
  pub undated : stream.terminal_at ≡ none

-- The type of the event that has ended a stream.
abbrev pub type_of : Option MonitorEvent → Option EventType
type_of none = none
type_of (some e) = some e.event

abbrev pub ending_of : Option RunEventStream → Option EventType
ending_of none = none
ending_of (some s) = type_of s.terminal_event

unfoldable pub last_event : ℕ → ℕ → EventBroker → Option EventType
last_event t r b = ending_of (find_stream t r b)

-- A request that publishes no event of the kind that ends a run.
abbrev pub EndsNoRun : Request → Type 0
EndsNoRun (to_publish kind body now) = ends_run kind ≡ false
EndsNoRun _ = Unit {0}

step_keeps_open :
    (size : ℕ) (s : RunEventStream) (q : Request)
    → EndsNoRun q
    → s.terminal_event ≡ none
    → s.terminal_at ≡ none
    → ((stream_step s (on_stream size q)).terminal_event ≡ none)
      × ((stream_step s (on_stream size q)).terminal_at ≡ none)
unfolding stream_step publish append_event subscribe unsubscribe
step_keeps_open size s (to_publish kind body now) h e a = ground arith
step_keeps_open size s (to_subscribe after uuid now) h e a = (e, a)
step_keeps_open size s (to_unsubscribe uuid) h e a = (e, a)

pub HasOpen-call :
    (t r t' r' : ℕ) (q : Request) (b : EventBroker)
    → ((t' == t && r' == r) ≡ true → EndsNoRun q)
    → HasOpen t r b
    → HasOpen t r (perform_on t' r' q b)
HasOpen-call t r t' r' q b h o = elim (Bool-cases (t' == t && r' == r)) [
  | inl same ↦
      let kept = step_keeps_open b.subscriber_queue_size o.stream q (h same) o.unended o.undated in
      record {
        stream = stream_step o.stream (on_stream b.subscriber_queue_size q);
        found = perform_at t r t' r' q b o.stream same o.found o.undated;
        unended = kept.0;
        undated = kept.1;
      }
  | inr other ↦ record {
    stream = o.stream;
    found = perform_other t r t' r' q b o.stream other o.found o.undated;
    unended = o.unended;
    undated = o.undated;
  }
]

publish_type :
    (s : RunEventStream) (kind : EventType) (body : Payload) (now : ℕ)
    → s.terminal_event ≡ none
    → ends_run kind ≡ true
    → type_of (publish kind body now s).1.terminal_event ≡ some kind
unfolding publish append_event
publish_type s kind body now e ending = rw (ending, e) (rw ending refl)

-- An event that ends an open stream is the one that has ended it.
pub publish_ends :
    (t r : ℕ) (kind : EventType) (body : Payload) (now : ℕ) (b : EventBroker)
    → ends_run kind ≡ true
    → HasOpen t r b
    → last_event t r (publish_to t r kind body now b).1 ≡ some kind
unfolding last_event stream_step
publish_ends t r kind body now b ending o =
    rw (perform_same t r (to_publish kind body now) b o.stream o.found o.undated)
      (publish_type o.stream kind body now o.unended ending)
