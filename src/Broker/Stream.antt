-- ===== src/Broker/Stream.antt =====
-- app/api/event_broker.py: one run's event stream, its replay buffer and its subscribers. A method
-- runs under the stream's lock, so it is one step. A payload that the broker passes on is a text.
use globuy.Prelude.{
  ℕ, suc, ◌+◌, ◌-◌, max, Bool, true, false, ◌&&◌, not, Option, none, some, List, [], ◌∷◌, ◌++◌,
  ◌==◌, ltb, leb, length, select_where, delete_where, is_some, if◌then◌else◌,
}

-- EventType of app/api/monitor.py
pub data EventType : Type 0 where
  run_started step_started step_finished tool_call_start tool_call_args tool_call_end : EventType
  tool_call_result text_message_start text_message_content text_message_end : EventType
  run_finished run_error task_cancelled custom : EventType

unfoldable pub ends_run : EventType → Bool
ends_run run_finished = true
ends_run run_error = true
ends_run task_cancelled = true
ends_run _ = false

pub data Payload : Type 0 where
  given : List ℕ → Payload
  replay_gap : (requested_after : ℕ) (earliest : Option ℕ) → Payload
  stream_ready : (replayed_through : ℕ) (earliest : Option ℕ) → Payload

-- `{run_id}:{sequence}`, or `connection_{uuid}:{name}` for a control event.
pub data EventId : Type 0 where
  numbered : (run_id sequence : ℕ) → EventId
  connection : (uuid : ℕ) → EventId

pub record MonitorEvent : Type 0 where
  pub event : EventType
  pub event_id : EventId
  pub sequence : Option ℕ
  pub thread_id : ℕ
  pub run_id : ℕ
  pub timestamp : ℕ
  pub body : Payload

-- What a queue holds: an event, or the None that closes it.
pub data Item : Type 0 where
  item : MonitorEvent → Item
  closed : Item

pub record Subscription : Type 0 where
  pub subscription_id : ℕ
  pub queue : List Item
  pub maxsize : ℕ
  pub overflowed : Bool

-- `dropped` are the subscriptions that have left the set `subscribers`, whose clients still hold
-- their queues.
pub record RunEventStream : Type 0 where
  pub thread_id : ℕ
  pub run_id : ℕ
  pub max_events : ℕ
  pub next_sequence : ℕ
  pub buffer : List MonitorEvent
  pub subscribers : List Subscription
  pub dropped : List Subscription
  pub terminal_event : Option MonitorEvent
  pub terminal_at : Option ℕ

unfoldable pub fresh_stream : ℕ → ℕ → ℕ → RunEventStream
fresh_stream t r max_events = record {
  thread_id = t;
  run_id = r;
  max_events = max_events;
  next_sequence = 1;
  buffer = [];
  subscribers = [];
  dropped = [];
  terminal_event = none;
  terminal_at = none;
}

-- `while len(buffer) > max_events: buffer.popleft()`
unfoldable pub trim : ℕ → List MonitorEvent → List MonitorEvent
trim n [] = []
trim n (e ∷ es) = let rest = trim n es in if ltb n (suc (length es)) then rest else e ∷ es

abbrev pub is_full : Subscription → Bool
is_full s = leb s.maxsize (length s.queue)

abbrev pub receive : Item → Subscription → Subscription
receive i s = record s { queue = s.queue ++ i ∷ [] }

-- The queue of a subscriber that cannot keep up is emptied and closed.
abbrev pub cut_off : Subscription → Subscription
cut_off s = record s { queue = closed ∷ []; overflowed = true }

unfoldable pub deliver : Item → List Subscription → List Subscription
deliver i [] = []
deliver i (s ∷ ss) = if is_full s then deliver i ss else receive i s ∷ deliver i ss

unfoldable pub cut_off_full : List Subscription → List Subscription
cut_off_full [] = []
cut_off_full (s ∷ ss) = if is_full s then cut_off s ∷ cut_off_full ss else cut_off_full ss

abbrev pub numbered_event : RunEventStream → EventType → Payload → ℕ → MonitorEvent
numbered_event s kind body now = record {
  event = kind;
  event_id = numbered s.run_id s.next_sequence;
  sequence = some s.next_sequence;
  thread_id = s.thread_id;
  run_id = s.run_id;
  timestamp = now;
  body = body;
}

abbrev pub or_first : Option MonitorEvent → MonitorEvent → MonitorEvent
or_first none e = e
or_first (some first) e = first

-- A new event: numbered, buffered, noted if it is the first that ends the run, and handed to every
-- subscriber.
unfoldable pub append_event :
    EventType → Payload → ℕ → RunEventStream → MonitorEvent × RunEventStream
append_event kind body now s =
    let e = numbered_event s kind body now in
    let first = ends_run kind && not (is_some s.terminal_event) in
    (
      e,
      record s {
        next_sequence = s.next_sequence + 1;
        buffer = trim s.max_events (s.buffer ++ e ∷ []);
        subscribers = deliver (item e) s.subscribers;
        dropped = cut_off_full s.subscribers ++ s.dropped;
        terminal_event = (if first then some e else s.terminal_event);
        terminal_at = (if first then some now else s.terminal_at);
      },
    )

-- A second event that ends the run is not published: the first is returned.
abbrev pub publish_ending :
    Option MonitorEvent → EventType → Payload → ℕ → RunEventStream → MonitorEvent × RunEventStream
publish_ending none kind body now s = append_event kind body now s
publish_ending (some first) kind body now s = (first, s)

unfoldable pub publish : EventType → Payload → ℕ → RunEventStream → MonitorEvent × RunEventStream
publish kind body now s =
    if ends_run kind
    then publish_ending s.terminal_event kind body now s
    else append_event kind body now s

abbrev pub sequence_or_zero : MonitorEvent → ℕ
sequence_or_zero e = elim e.sequence [ none ↦ 0 | some n ↦ n ]

abbrev pub first_sequence : List MonitorEvent → ℕ → Option ℕ
first_sequence [] next = some next
first_sequence (e ∷ es) next = e.sequence

unfoldable pub control_event : ℕ → ℕ → ℕ → Payload → ℕ → MonitorEvent
control_event uuid t r body now = record {
  event = custom;
  event_id = connection uuid;
  sequence = none;
  thread_id = t;
  run_id = r;
  timestamp = now;
  body = body;
}

unfoldable pub replay_after : ℕ → List MonitorEvent → List MonitorEvent
replay_after after buffer = select_where (λ e. ltb after (sequence_or_zero e)) buffer

abbrev pub misses : ℕ → Option ℕ → Bool
misses after none = false
misses after (some earliest) = ltb after (earliest - 1)

abbrev pub items : List MonitorEvent → List Item
items [] = []
items (e ∷ es) = item e ∷ items es

abbrev pub gap_items : Bool → MonitorEvent → List Item
gap_items true e = item e ∷ []
gap_items false e = []

-- The replay behind a notice of what is lost, and a mark behind the replay. `uuid` numbers the
-- subscription and its two control events.
unfoldable pub subscribe : ℕ → ℕ → ℕ → ℕ → RunEventStream → Subscription × RunEventStream
unfolding control_event replay_after
subscribe queue_size uuid after now s =
    let replay = replay_after after s.buffer in
    let earliest = first_sequence s.buffer s.next_sequence in
    let control = λ (body : Payload). control_event uuid s.thread_id s.run_id body now in
    let client : Subscription = record {
      subscription_id = uuid;
      queue =
          gap_items (misses after earliest) (control (replay_gap after earliest))
          ++ items replay
          ++ item (control (stream_ready (s.next_sequence - 1) earliest)) ∷ [];
      maxsize = max queue_size (length replay + 3);
      overflowed = false;
    } in
    (client, record s { subscribers = client ∷ s.subscribers })

unfoldable pub unsubscribe : ℕ → RunEventStream → RunEventStream
unsubscribe id s = record s {
  subscribers = delete_where (λ x. x.subscription_id == id) s.subscribers;
  dropped = select_where (λ x. x.subscription_id == id) s.subscribers ++ s.dropped;
}

abbrev pub close_all : List Subscription → List Subscription
close_all [] = []
close_all (s ∷ ss) = record s { queue = closed ∷ [] } ∷ close_all ss

-- What `EventBroker.close` does to a stream.
unfoldable pub close_stream : RunEventStream → RunEventStream
close_stream s = record s { subscribers = []; dropped = close_all s.subscribers ++ s.dropped }
