-- ===== src/Broker/Table.antt =====
-- app/api/event_broker.py, class EventBroker: the streams of all runs. No method awaits anything
-- while it holds a lock, so a method is one step. A stream is filed under its two identifiers.
use globuy.Prelude.{
  ℕ, ◌+◌, ◌-◌, Bool, true, false, ◌&&◌, Option, none, some, List, [], ◌∷◌, ◌==◌, ltb, find_first,
  update_where, delete_where,
}
use globuy.Broker.Stream.{
  EventType, MonitorEvent, Payload, RunEventStream, Subscription, fresh_stream, publish, subscribe,
  unsubscribe, close_stream,
}

-- `buffer_size`, `retention` and `subscriber_queue_size` are the constructor's arguments.
pub record EventBroker : Type 0 where
  pub buffer_size : ℕ
  pub retention : ℕ
  pub subscriber_queue_size : ℕ
  pub streams : List RunEventStream

abbrev pub has_key : ℕ → ℕ → RunEventStream → Bool
has_key t r s = s.thread_id == t && s.run_id == r

unfoldable pub find_stream : ℕ → ℕ → EventBroker → Option RunEventStream
find_stream t r b = find_first (has_key t r) b.streams

abbrev pub is_empty : List Subscription → Bool
is_empty [] = true
is_empty (s ∷ ss) = false

-- `terminal_at < now - retention`
abbrev pub ended_before : ℕ → ℕ → Option ℕ → Bool
ended_before retention now none = false
ended_before retention now (some at) = ltb (at + retention) now

abbrev pub is_expired : ℕ → ℕ → RunEventStream → Bool
is_expired retention now s = ended_before retention now s.terminal_at && is_empty s.subscribers

unfoldable pub prune : ℕ → EventBroker → EventBroker
prune now b = record b { streams = delete_where (is_expired b.retention now) b.streams }

abbrev pub or_open : ℕ → ℕ → EventBroker → Option RunEventStream → RunEventStream × EventBroker
or_open t r b (some s) = (s, b)
or_open t r b none =
    let s = fresh_stream t r b.buffer_size in (s, record b { streams = s ∷ b.streams })

unfoldable pub ensure_stream : ℕ → ℕ → ℕ → EventBroker → RunEventStream × EventBroker
unfolding prune
ensure_stream t r now b = or_open t r (prune now b) (find_stream t r (prune now b))

-- A change of the stream that is filed under a key.
abbrev pub put_stream : ℕ → ℕ → RunEventStream → EventBroker → EventBroker
put_stream t r s b = record b { streams = update_where (has_key t r) (λ _. s) b.streams }

unfoldable pub publish_to :
    ℕ → ℕ → EventType → Payload → ℕ → EventBroker → MonitorEvent × EventBroker
unfolding ensure_stream
publish_to t r kind body now b =
    let (s, ensured) = ensure_stream t r now b in
    let (e, s') = publish kind body now s in (e, put_stream t r s' ensured)

unfoldable pub subscribe_to : ℕ → ℕ → ℕ → ℕ → ℕ → EventBroker → Subscription × EventBroker
unfolding ensure_stream
subscribe_to t r after uuid now b =
    let (s, ensured) = ensure_stream t r now b in
    let (client, s') = subscribe b.subscriber_queue_size uuid after now s in
    (client, put_stream t r s' ensured)

abbrev pub leave : ℕ → ℕ → ℕ → EventBroker → Option RunEventStream → EventBroker
leave t r id b none = b
leave t r id b (some s) = put_stream t r (unsubscribe id s) b

unfoldable pub unsubscribe_from : ℕ → ℕ → ℕ → EventBroker → EventBroker
unsubscribe_from t r id b = leave t r id b (find_stream t r b)

pub record CursorInfo : Type 0 where
  pub last_sequence : ℕ
  pub earliest_available_sequence : Option ℕ
  pub terminal_event : Option MonitorEvent

abbrev pub first_buffered : List MonitorEvent → Option ℕ
first_buffered [] = none
first_buffered (e ∷ es) = e.sequence

abbrev pub cursor_of : Option RunEventStream → CursorInfo
cursor_of none = record {
  last_sequence = 0;
  earliest_available_sequence = none;
  terminal_event = none;
}
cursor_of (some s) = record {
  last_sequence = s.next_sequence - 1;
  earliest_available_sequence = first_buffered s.buffer;
  terminal_event = s.terminal_event;
}

unfoldable pub cursor_info : ℕ → ℕ → EventBroker → CursorInfo
cursor_info t r b = cursor_of (find_stream t r b)

abbrev close_streams : List RunEventStream → List RunEventStream
close_streams [] = []
close_streams (s ∷ ss) = close_stream s ∷ close_streams ss

-- The streams that clients still hold, closed, and the empty table.
unfoldable pub close : EventBroker → List RunEventStream × EventBroker
close b = (close_streams b.streams, record b { streams = [] })
