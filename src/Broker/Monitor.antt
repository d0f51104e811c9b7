-- ===== src/Broker/Monitor.antt =====
-- app/api/monitor.py, class Monitor, and `publish_internal` of app/api/event_broker.py: what the agents and
-- their tools report, nested ones too, reaches the stream of the root's thread. The text of an identifier
-- and the JSON of a message with its data are arguments; a JSON value that is no text is a number.
use globuy.Prelude.{
  ℕ, Bool, Option, none, some, List, [], ◌∷◌, ◌++◌, ◌==◌, any, find_first, delete_where, same_text,
  if◌then◌else◌,
}
use globuy.Broker.Stream.{EventType, MonitorEvent, given}
use globuy.Broker.Table.{EventBroker, publish_to}

abbrev pub Key : Type 0
Key = List ℕ

pub data DataValue : Type 0 where
  text : List ℕ → DataValue
  other : ℕ → DataValue

-- A dict of texts, its keys distinct.
abbrev pub EventData : Type 0
EventData = List (Key × DataValue)

abbrev pub has_name : Key → Key × DataValue → Bool
has_name k (j, v) = same_text j k

abbrev value_of : Option (Key × DataValue) → Option DataValue
value_of none = none
value_of (some (j, v)) = some v

unfoldable pub get_value : Key → EventData → Option DataValue
get_value k d = value_of (find_first (has_name k) d)

unfoldable pub default_value : Key → DataValue → EventData → EventData
default_value k v d = if any (has_name k) d then d else d ++ (k, v) ∷ []

-- "message" and "source_thread_id"
abbrev pub message_key : Key
message_key = 109 ∷ 101 ∷ 115 ∷ 115 ∷ 97 ∷ 103 ∷ 101 ∷ []

abbrev pub source_key : Key
source_key =
    115 ∷ 111 ∷ 117 ∷ 114 ∷ 99 ∷ 101 ∷ 95 ∷ 116 ∷ 104 ∷ 114 ∷ 101 ∷ 97 ∷ 100 ∷ 95 ∷ 105 ∷ 100 ∷ []

pub record AgentEvent : Type 0 where
  pub kind : EventType
  pub thread_id : ℕ
  pub run_id : ℕ
  pub timestamp : ℕ
  pub body : EventData

-- `message if isinstance(message, str) else None`
abbrev pub text_only : Option DataValue → Option (List ℕ)
text_only none = none
text_only (some (text t)) = some t
text_only (some (other n)) = none

-- The thread and the run of the scope in which a task runs, and the thread of the monitor.
pub record Scope : Type 0 where
  pub thread_id : Option ℕ
  pub run_id : Option ℕ
  pub publish_thread_id : Option ℕ

abbrev pub or_thread : Option ℕ → ℕ → ℕ
or_thread none t = t
or_thread (some root) t = root

module _ (show : ℕ → List ℕ) (pack : Option (List ℕ) → EventData → List ℕ) where
  unfoldable pub internal_data : ℕ → AgentEvent → EventData
  unfolding default_value
  internal_data channel x =
      let rest = delete_where (has_name message_key) x.body in
      if x.thread_id == channel
      then rest
      else default_value source_key (text (show x.thread_id)) rest

  unfoldable pub internal_message : AgentEvent → Option (List ℕ)
  unfolding get_value
  internal_message x = text_only (get_value message_key x.body)

  unfoldable pub publish_internal : ℕ → AgentEvent → ℕ → EventBroker → MonitorEvent × EventBroker
  unfolding internal_data internal_message publish_to
  publish_internal channel x now b =
      publish_to channel x.run_id x.kind
        (given (pack (internal_message x) (internal_data channel x))) now b

  -- `emit_for`: the event, and the broker behind its publishing.
  unfoldable pub emit_for :
      Scope → EventType → ℕ → ℕ → EventData → ℕ → EventBroker → AgentEvent × EventBroker
  unfolding publish_internal
  emit_for scope kind t r body now b =
      let x : AgentEvent = record {
        kind = kind;
        thread_id = t;
        run_id = r;
        timestamp = now;
        body = body;
      } in
      (x, (publish_internal (or_thread scope.publish_thread_id t) x now b).1)

  abbrev pub emit_in :
      Scope
      → EventType
      → Option ℕ
      → Option ℕ
      → EventData
      → ℕ
      → EventBroker
      → Option (AgentEvent × EventBroker)
  emit_in scope kind (some t) (some r) body now b = some (emit_for scope kind t r body now b)
  emit_in scope kind none r body now b = none
  emit_in scope kind (some t) none body now b = none

  -- `none` is the RuntimeError outside a scope.
  unfoldable pub emit :
      Scope → EventType → EventData → ℕ → EventBroker → Option (AgentEvent × EventBroker)
  unfolding emit_for
  emit scope kind body now b = emit_in scope kind scope.thread_id scope.run_id body now b
