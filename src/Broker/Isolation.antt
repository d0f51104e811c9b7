-- ===== src/Broker/Isolation.antt =====
-- The table of streams against the single stream: what the calls on one run do to its stream.
use globuy.Prelude.{
  ℕ, ◌≡◌, refl, ap, ◌∙◌, true, false, ◌&&◌, Option, none, some, List, [], ◌∷◌, ◌==◌, inl, inr,
  Option-cases, Bool-cases, arith, if◌then◌else◌,
}
use globuy.Broker.Stream.{
  EventType, Payload, RunEventStream, publish, subscribe, unsubscribe, close_stream, append_event,
}
use globuy.Broker.Order.{
  StreamCall, publishes, subscribes, unsubscribes, closes, stream_step, stream_run,
}
use globuy.Broker.Table.{
  EventBroker, has_key, find_stream, prune, ensure_stream, publish_to, subscribe_to,
  unsubscribe_from, leave,
}
use globuy.Broker.Keys.{
  prune-find, put_other, put_same, key-publish, key-subscribe, key-unsubscribe, find_stream-key,
  ensure_found, ensure_stream-key, ensure_stream-other,
}

-- One call on the table, for the stream of one run. `close`, the last call, is left out.
pub data Request : Type 0 where
  to_publish : EventType → Payload → (now : ℕ) → Request
  to_subscribe : (after uuid now : ℕ) → Request
  to_unsubscribe : (uuid : ℕ) → Request

pub record BrokerCall : Type 0 where
  pub thread_id : ℕ
  pub run_id : ℕ
  pub request : Request

abbrev pub perform_on : ℕ → ℕ → Request → EventBroker → EventBroker
perform_on t r (to_publish kind body now) b = (publish_to t r kind body now b).1
perform_on t r (to_subscribe after uuid now) b = (subscribe_to t r after uuid now b).1
perform_on t r (to_unsubscribe uuid) b = unsubscribe_from t r uuid b

unfoldable pub broker_run : EventBroker → List BrokerCall → EventBroker
broker_run b [] = b
broker_run b (c ∷ cs) = broker_run (perform_on c.thread_id c.run_id c.request b) cs

-- The same call on the single stream.
abbrev pub on_stream : ℕ → Request → StreamCall
on_stream queue_size (to_publish kind body now) = publishes kind body now
on_stream queue_size (to_subscribe after uuid now) = subscribes queue_size uuid after now
on_stream queue_size (to_unsubscribe uuid) = unsubscribes uuid

-- The calls for the stream of one run.
unfoldable pub calls_of : ℕ → ℕ → ℕ → List BrokerCall → List StreamCall
calls_of queue_size t r [] = []
calls_of queue_size t r (c ∷ cs) =
    let rest = calls_of queue_size t r cs in
    if c.thread_id == t && c.run_id == r then on_stream queue_size c.request ∷ rest else rest

-- A call on the stream of a run.
pub perform_same :
    (t r : ℕ) (q : Request) (b : EventBroker) (s : RunEventStream)
    → find_stream t r b ≡ some s
    → s.terminal_at ≡ none
    → find_stream t r (perform_on t r q b)
      ≡ some (stream_step s (on_stream b.subscriber_queue_size q))
unfolding publish_to subscribe_to unsubscribe_from stream_step
perform_same t r (to_publish kind body now) b s found alive =
    rw (ensure_found t r now b s found alive) (
      put_same t r s _ (prune now b) (prune-find t r now b s found alive)
        (key-publish t r kind body now s (find_stream-key t r b s found)))
perform_same t r (to_subscribe after uuid now) b s found alive =
    rw (ensure_found t r now b s found alive) (
      put_same t r s _ (prune now b) (prune-find t r now b s found alive) (
        key-subscribe t r b.subscriber_queue_size uuid after now s (find_stream-key t r b s found)))
perform_same t r (to_unsubscribe uuid) b s found alive =
    ap (λ o. find_stream t r (leave t r uuid b o)) found
    ∙ put_same t r s _ b found (key-unsubscribe t r uuid s (find_stream-key t r b s found))

leave_other :
    (t r t' r' id : ℕ) (b : EventBroker) (o : Option RunEventStream)
    → (t' == t && r' == r) ≡ false
    → ((s : RunEventStream) → o ≡ some s → has_key t' r' s ≡ true)
    → find_stream t r (leave t' r' id b o) ≡ find_stream t r b
leave_other t r t' r' id b none h k = refl
leave_other t r t' r' id b (some s) h k =
    put_other t r t' r' (unsubscribe id s) b h (key-unsubscribe t' r' id s (k s refl))

-- A call on another run's stream.
pub perform_other :
    (t r t' r' : ℕ) (q : Request) (b : EventBroker) (s : RunEventStream)
    → (t' == t && r' == r) ≡ false
    → find_stream t r b ≡ some s
    → s.terminal_at ≡ none
    → find_stream t r (perform_on t' r' q b) ≡ some s
unfolding publish_to subscribe_to unsubscribe_from
perform_other t r t' r' (to_publish kind body now) b s h found alive =
    put_other t r t' r' _ _ h (key-publish t' r' kind body now _ (ensure_stream-key t' r' now b))
    ∙ ensure_stream-other t r t' r' now b s h found alive
perform_other t r t' r' (to_subscribe after uuid now) b s h found alive =
    put_other t r t' r' _ _ h
      (key-subscribe t' r' b.subscriber_queue_size uuid after now _ (ensure_stream-key t' r' now b))
    ∙ ensure_stream-other t r t' r' now b s h found alive
perform_other t r t' r' (to_unsubscribe uuid) b s h found alive =
    leave_other t r t' r' uuid b (find_stream t' r' b) h (find_stream-key t' r' b) ∙ found

perform_keeps_size :
    (t r : ℕ) (q : Request) (b : EventBroker)
    → (perform_on t r q b).subscriber_queue_size ≡ b.subscriber_queue_size
unfolding publish_to subscribe_to unsubscribe_from ensure_stream prune
perform_keeps_size t r (to_publish kind body now) b =
    elim (Option-cases (find_stream t r (prune now b))) [
      | inl missing ↦ rw missing refl
      | inr (s, found) ↦ rw found refl
    ]
perform_keeps_size t r (to_subscribe after uuid now) b =
    elim (Option-cases (find_stream t r (prune now b))) [
      | inl missing ↦ rw missing refl
      | inr (s, found) ↦ rw found refl
    ]
perform_keeps_size t r (to_unsubscribe uuid) b = elim (Option-cases (find_stream t r b)) [
  | inl missing ↦ rw missing refl
  | inr (s, found) ↦ rw found refl
]

step_alive :
    (s : RunEventStream) (c : StreamCall)
    → (stream_step s c).terminal_at ≡ none
    → s.terminal_at ≡ none
unfolding stream_step subscribe unsubscribe close_stream publish append_event
step_alive s (publishes kind body now) h = ground arith
step_alive s (subscribes queue_size uuid after now) h = h
step_alive s (unsubscribes uuid) h = h
step_alive s closes h = h

run_alive :
    (s : RunEventStream) (cs : List StreamCall)
    → (stream_run s cs).terminal_at ≡ none
    → s.terminal_at ≡ none
unfolding stream_run
run_alive s [] h = h
run_alive s (c ∷ cs) h = step_alive s c (run_alive (stream_step s c) cs h)

key_iff : (t r t' r' : ℕ) → (t' == t && r' == r) ≡ true → (t' ≡ t) × (r' ≡ r)
key_iff t r t' r' h = ground arith

pub perform_at :
    (t r t' r' : ℕ) (q : Request) (b : EventBroker) (s : RunEventStream)
    → (t' == t && r' == r) ≡ true
    → find_stream t r b ≡ some s
    → s.terminal_at ≡ none
    → find_stream t r (perform_on t' r' q b)
      ≡ some (stream_step s (on_stream b.subscriber_queue_size q))
perform_at t r t' r' q b s same found alive =
    rw ((key_iff t r t' r' same).0, (key_iff t r t' r' same).1) (perform_same t r q b s found alive)

isolated :
    (size t r : ℕ) (b : EventBroker) (s : RunEventStream) (cs : List BrokerCall)
    → b.subscriber_queue_size ≡ size
    → find_stream t r b ≡ some s
    → (stream_run s (calls_of size t r cs)).terminal_at ≡ none
    → find_stream t r (broker_run b cs) ≡ some (stream_run s (calls_of size t r cs))
unfolding broker_run stream_run calls_of
isolated size t r b s [] sized found alive = found
isolated size t r b s (c ∷ cs) sized found alive =
    let q : Request = c.request in
    let b' : EventBroker = perform_on c.thread_id c.run_id q b in
    let sized' = perform_keeps_size c.thread_id c.run_id q b ∙ sized in
    elim (Bool-cases (c.thread_id == t && c.run_id == r)) [
      | inl same ↦
          let next : RunEventStream = stream_step s (on_stream size q) in
          let alive' : (stream_run next (calls_of size t r cs)).terminal_at ≡ none =
            rw same at alive in
          rw same (
            isolated size t r b' next cs sized'
              (perform_at t r c.thread_id c.run_id q b s same found
                  (step_alive s (on_stream size q) (run_alive next (calls_of size t r cs) alive'))
                ∙ ap (λ n. some (stream_step s (on_stream n q))) sized)
              alive')
      | inr other ↦
          let alive' : (stream_run s (calls_of size t r cs)).terminal_at ≡ none =
            rw other at alive in
          rw other (
            isolated size t r b' s cs sized'
              (perform_other t r c.thread_id c.run_id q b s other found
                (run_alive s (calls_of size t r cs) alive'))
              alive')
    ]

-- While a run has not ended, its stream in the table is the stream that the calls for that run
-- alone make of it, whatever calls for other runs come in between: no pruning drops it, its numbers
-- never start again, and no other run's events reach it.
pub stream_in_isolation :
    (t r : ℕ) (b : EventBroker) (s : RunEventStream) (cs : List BrokerCall)
    → find_stream t r b ≡ some s
    → (stream_run s (calls_of b.subscriber_queue_size t r cs)).terminal_at ≡ none
    → find_stream t r (broker_run b cs)
      ≡ some (stream_run s (calls_of b.subscriber_queue_size t r cs))
stream_in_isolation t r b s cs found alive =
    isolated b.subscriber_queue_size t r b s cs refl found alive
