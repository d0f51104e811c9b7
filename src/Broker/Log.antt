-- ===== src/Broker/Log.antt =====
-- The events of a stream in full, against its buffer, and the queue that a client is given.
use globuy.Prelude.{
  ℕ, zero, suc, drop, ◌+◌, ◌-◌, ◌<◌, ◌≡◌, refl, sym, ap, ◌∙◌, Bool, true, false, ◌&&◌, ◌||◌, not,
  subst, Option, none, some, List, [], ◌∷◌, ◌++◌, map, length, length-append, ltb, is_some, inl,
  inr, Bool-cases, if◌then◌else◌, arith,
}
use globuy.Broker.Stream.{
  EventType, custom, numbered, connection, MonitorEvent, Payload, RunEventStream, Item, item,
  fresh_stream, trim, append_event, numbered_event, publish, publish_ending, ends_run, subscribe,
  unsubscribe, close_stream, replay_after, first_sequence, misses, gap_items, items, control_event,
  replay_gap, stream_ready, sequence_or_zero,
}
use globuy.Broker.Order.{
  StreamCall, publishes, subscribes, unsubscribes, closes, stream_step, stream_run, NumberedTo,
  IsOrdered, subscribe_replays,
}

-- The events that calls publish, from the number `n` on; `over` says whether the run has ended. A
-- second event that ends the run is none.
unfoldable pub published : ℕ → ℕ → ℕ → Bool → List StreamCall → List MonitorEvent
published t r n over [] = []
published t r n over (publishes kind body now ∷ cs) =
    let second = ends_run kind && over in
    let rest = published t r (if second then n else n + 1) (over || ends_run kind) cs in
    if second
    then rest
    else record {
      event = kind;
      event_id = numbered r n;
      sequence = some n;
      thread_id = t;
      run_id = r;
      timestamp = now;
      body = body;
    }
      ∷ rest
published t r n over (subscribes queue_size uuid after now ∷ cs) = published t r n over cs
published t r n over (unsubscribes uuid ∷ cs) = published t r n over cs
published t r n over (closes ∷ cs) = published t r n over cs

drop_nothing : (n : ℕ) → drop {A = MonitorEvent} n [] ≡ []
drop_nothing zero = refl
drop_nothing (suc n) = refl

trim-drop : (n : ℕ) (xs : List MonitorEvent) → trim n xs ≡ drop (length xs - n) xs
unfolding trim
trim-drop n [] = sym (drop_nothing (0 - n))
trim-drop n (x ∷ xs) = elim (Bool-cases (ltb n (suc (length xs)))) [
  | inl over ↦
      let e : suc (length xs) - n ≡ suc (length xs - n) = ground arith in
      rw (over, e) (trim-drop n xs)
  | inr fits ↦ let e : suc (length xs) - n ≡ 0 = ground arith in rw (fits, e) refl
]

trim_again :
    (n : ℕ) (xs : List MonitorEvent) (e : MonitorEvent)
    → trim n (trim n xs ++ e ∷ []) ≡ trim n (xs ++ e ∷ [])
unfolding trim
trim_again n [] e = refl
trim_again n (x ∷ xs) e = elim (Bool-cases (ltb n (suc (length xs)))) [
  | inl over ↦
      let k : ltb n (suc (length (xs ++ e ∷ []))) ≡ true =
        ground (arith, length-append xs (e ∷ [])) in
      rw (over, k) (trim_again n xs e)
  | inr fits ↦ rw fits refl
]

append_assoc {ℓ} :
    {A : Type ℓ} (xs : List A) (y : A) (zs : List A) → (xs ++ y ∷ []) ++ zs ≡ xs ++ y ∷ zs
append_assoc [] y zs = refl
append_assoc (x ∷ xs) y zs = ap (◌∷◌ x) (append_assoc xs y zs)

append_nil {ℓ} : {A : Type ℓ} (xs : List A) → xs ++ [] ≡ xs
append_nil [] = refl
append_nil (x ∷ xs) = ap (◌∷◌ x) (append_nil xs)

-- A stream with room for `size` events, which has the last of the events `xs`.
abbrev EndsLog : ℕ → RunEventStream → List MonitorEvent → Type 0
EndsLog size s xs =
    (s.max_events ≡ size) × (s.buffer ≡ trim size xs) × (s.next_sequence ≡ length xs + 1)

-- The events of a stream and of the calls that follow.
abbrev extended : RunEventStream → List MonitorEvent → List StreamCall → List MonitorEvent
extended s xs cs =
    xs ++ published s.thread_id s.run_id s.next_sequence (is_some s.terminal_event) cs

append-EndsLog :
    (kind : EventType) (body : Payload) (now size : ℕ) (s : RunEventStream) (xs : List MonitorEvent)
    → EndsLog size s xs
    → EndsLog size (append_event kind body now s).1 (xs ++ numbered_event s kind body now ∷ [])
unfolding append_event
append-EndsLog kind body now size s xs h = (
  h.0,
  ap (λ n. trim n (s.buffer ++ numbered_event s kind body now ∷ [])) (h.0)
      ∙ ap (λ ys. trim size (ys ++ numbered_event s kind body now ∷ [])) (h.1)
      ∙ trim_again size xs (numbered_event s kind body now),
  omega (arith, h.2, length-append xs (numbered_event s kind body now ∷ [])),
)

noted :
    (kind : EventType) (e : MonitorEvent) (o : Option MonitorEvent)
    → is_some (if ends_run kind && not (is_some o) then some e else o)
      ≡ (is_some o || ends_run kind)
noted kind e none = ground arith
noted kind e (some x) = ground arith

append-extended :
    (kind : EventType) (body : Payload) (now : ℕ) (s : RunEventStream) (xs : List MonitorEvent)
    (cs : List StreamCall)
    → (ends_run kind && is_some s.terminal_event) ≡ false
    → extended (append_event kind body now s).1 (xs ++ numbered_event s kind body now ∷ []) cs
      ≡ extended s xs (publishes kind body now ∷ cs)
unfolding append_event published
append-extended kind body now s xs cs h =
    rw (h, noted kind (numbered_event s kind body now) s.terminal_event)
      (append_assoc xs (numbered_event s kind body now) _)

publish_ending_new :
    (o : Option MonitorEvent) (kind : EventType) (body : Payload) (now : ℕ) (s : RunEventStream)
    → is_some o ≡ false
    → (publish_ending o kind body now s).1 ≡ (append_event kind body now s).1
publish_ending_new none kind body now s h = refl
publish_ending_new (some e) kind body now s h = cc

publish_ending_again :
    (o : Option MonitorEvent) (kind : EventType) (body : Payload) (now : ℕ) (s : RunEventStream)
    → is_some o ≡ true
    → (publish_ending o kind body now s).1 ≡ s
publish_ending_again none kind body now s h = cc
publish_ending_again (some e) kind body now s h = refl

publish_new :
    (kind : EventType) (body : Payload) (now : ℕ) (s : RunEventStream)
    → (ends_run kind && is_some s.terminal_event) ≡ false
    → (publish kind body now s).1 ≡ (append_event kind body now s).1
unfolding publish
publish_new kind body now s h = elim (Bool-cases (ends_run kind)) [
  | inl ending ↦ rw ending (publish_ending_new s.terminal_event kind body now s (ground arith))
  | inr plain ↦ rw plain refl
]

publish_again :
    (kind : EventType) (body : Payload) (now : ℕ) (s : RunEventStream)
    → (ends_run kind && is_some s.terminal_event) ≡ true
    → (publish kind body now s).1 ≡ s
unfolding publish
publish_again kind body now s h =
    let ending : ends_run kind ≡ true = ground arith in
    rw ending (publish_ending_again s.terminal_event kind body now s (ground arith))

again-extended :
    (kind : EventType) (body : Payload) (now : ℕ) (s : RunEventStream) (xs : List MonitorEvent)
    (cs : List StreamCall)
    → (ends_run kind && is_some s.terminal_event) ≡ true
    → extended s xs cs ≡ extended s xs (publishes kind body now ∷ cs)
unfolding published
again-extended kind body now s xs cs h =
    let same : (is_some s.terminal_event || ends_run kind) ≡ is_some s.terminal_event =
      ground arith in
    rw (h, same) refl

-- A publication in front of further calls.
publish-then :
    (kind : EventType) (body : Payload) (now size : ℕ) (cs : List StreamCall) (s : RunEventStream)
    (xs : List MonitorEvent)
    → ((s' : RunEventStream) (ys : List MonitorEvent)
        → EndsLog size s' ys
        → EndsLog size (stream_run s' cs) (extended s' ys cs))
    → EndsLog size s xs
    → EndsLog size
        (stream_run (publish kind body now s).1 cs)
        (extended s xs (publishes kind body now ∷ cs))
publish-then kind body now size cs s xs go h =
    elim (Bool-cases (ends_run kind && is_some s.terminal_event)) [
      | inl second ↦
          subst
            (λ s'. EndsLog size (stream_run s' cs) (extended s xs (publishes kind body now ∷ cs)))
            (sym (publish_again kind body now s second))
            (subst (EndsLog size (stream_run s cs)) (again-extended kind body now s xs cs second)
              (go s xs h))
      | inr first ↦
          subst
            (λ s'. EndsLog size (stream_run s' cs) (extended s xs (publishes kind body now ∷ cs)))
            (sym (publish_new kind body now s first))
            (subst (EndsLog size (stream_run (append_event kind body now s).1 cs))
              (append-extended kind body now s xs cs first)
              (go (append_event kind body now s).1 _ (append-EndsLog kind body now size s xs h)))
    ]

run-EndsLog :
    (size : ℕ) (cs : List StreamCall) (s : RunEventStream) (xs : List MonitorEvent)
    → EndsLog size s xs
    → EndsLog size (stream_run s cs) (extended s xs cs)
unfolding stream_run stream_step published subscribe unsubscribe close_stream
run-EndsLog size [] s xs h = rw (append_nil xs) h
run-EndsLog size (publishes kind body now ∷ cs) s xs h =
    publish-then kind body now size cs s xs (run-EndsLog size cs) h
run-EndsLog size (subscribes queue_size uuid after now ∷ cs) s xs h = run-EndsLog size cs _ xs h
run-EndsLog size (unsubscribes uuid ∷ cs) s xs h = run-EndsLog size cs _ xs h
run-EndsLog size (closes ∷ cs) s xs h = run-EndsLog size cs _ xs h

-- After any calls on a new stream, the next number is one above the number of the events published,
-- and the buffer holds exactly the last `max_events` of them, each with its kind, its data, its
-- time and its number, counted from 1. An event that would end a run that has ended is not
-- published.
pub buffer_holds_last :
    (t r max_events : ℕ) (cs : List StreamCall)
    → let s = stream_run (fresh_stream t r max_events) cs in
      let all = published t r 1 false cs in
      (s.buffer ≡ drop (length all - max_events) all) × (s.next_sequence ≡ length all + 1)
unfolding fresh_stream trim
buffer_holds_last t r max_events cs =
    let known =
      run-EndsLog max_events cs (fresh_stream t r max_events) [] (refl, refl, omega arith) in
    (known.1 ∙ trim-drop max_events (published t r 1 false cs), known.2)

-- The queue of a client that has seen the events up to `after`.
number_known : (e : MonitorEvent) (n : ℕ) → e.sequence ≡ some n → sequence_or_zero e ≡ n
number_known e n h = rw h refl

length_within :
    (after end : ℕ) (es : List MonitorEvent)
    → NumberedTo end es
    → length es < end
    → replay_after after es ≡ drop (length es - (end - suc after)) es
unfolding replay_after
length_within after end [] h k = sym (drop_nothing (0 - (end - suc after)))
length_within after end (e ∷ es) h k =
    let rest = length_within after end es (h.1) (omega (arith, k)) in
    elim (Bool-cases (ltb after (end - suc (length es)))) [
      | inl above ↦
          let all : suc (length es) - (end - suc after) ≡ 0 = ground arith in
          let whole : length es - (end - suc after) ≡ 0 = ground arith in
          rw (ap (ltb after) (number_known e _ h.0) ∙ above, all)
            (ap (◌∷◌ e) (rest ∙ ap (λ n. drop n es) whole))
      | inr seen ↦
          let less : suc (length es) - (end - suc after) ≡ suc (length es - (end - suc after)) =
            ground arith in
          rw (ap (ltb after) (number_known e _ h.0) ∙ seen, less) rest
    ]

first_known :
    (end : ℕ) (es : List MonitorEvent)
    → NumberedTo end es
    → first_sequence es end ≡ some (end - length es)
first_known end [] h = ap some (omega arith)
first_known end (e ∷ es) h = h.0

misses_lem : (after end n : ℕ) → n < end → misses after (some (end - n)) ≡ ltb n (end - suc after)
misses_lem after end n h = ground arith

gap_items-if :
    (lost : Bool) (e : MonitorEvent) → gap_items lost e ≡ (if lost then item e ∷ [] else [])
gap_items-if true e = refl
gap_items-if false e = refl

items-map : (es : List MonitorEvent) → items es ≡ map item es
items-map [] = refl
items-map (e ∷ es) = ap (◌∷◌ (item e)) (items-map es)

-- In a stream whose buffer is in order, a client that has seen the events up to `after` gets a queue
-- with, one after the other: a notice of a gap, only if an event above `after` is no longer
-- buffered; the buffered events above `after`, which are the last of the buffer, as many as there
-- are numbers above `after`, or the whole buffer; and a mark that the replay is over. The notice and
-- the mark name the first number of the buffer, or the next number where it is empty. The queue has
-- room for more, and nothing else of the stream is changed.
pub subscribe_queue :
    (queue_size uuid after now : ℕ) (s : RunEventStream)
    → IsOrdered s
    → let (client, s') = subscribe queue_size uuid after now s in
      let behind = s.next_sequence - suc after in
      let size = length s.buffer in
      let earliest = some (s.next_sequence - size) in
      let control : Payload → Item = λ body. item (record {
        event = custom;
        event_id = connection uuid;
        sequence = none;
        thread_id = s.thread_id;
        run_id = s.run_id;
        timestamp = now;
        body = body;
      }) in
      (client.queue
        ≡ (if ltb size behind then control (replay_gap after earliest) ∷ [] else [])
          ++ map item (drop (size - behind) s.buffer)
          ++ control (stream_ready (s.next_sequence - 1) earliest) ∷ [])
      × (length client.queue < client.maxsize)
      × (client.subscription_id ≡ uuid)
      × (s' ≡ record s { subscribers = client ∷ s.subscribers })
unfolding subscribe control_event
subscribe_queue queue_size uuid after now s o =
    let room = (subscribe_replays queue_size uuid after now s o).3 in
    (
      rw
          (
            first_known s.next_sequence s.buffer o.numbers,
            misses_lem after s.next_sequence (length s.buffer) o.below,
            gap_items-if,
            length_within after s.next_sequence s.buffer o.numbers o.below,
            items-map,
          )
          refl,
      room,
      refl,
      refl,
    )
