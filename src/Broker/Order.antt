-- ===== src/Broker/Order.antt =====
-- The numbers of a stream's events: consecutive, up to the last one given out.
use globuy.Prelude.{
  ℕ, suc, ◌+◌, ◌-◌, ◌≤◌, ◌<◌, ◌≡◌, refl, ap, ◌∙◌, min, Bool, true, false, Option, none, some, List,
  [], ◌∷◌, ◌++◌, length, length-append, inl, inr, Bool-cases, ◌↔◌, if◌then◌else◌, arith,
}
use native.Mathlib.Numerals.{add-one}
use globuy.Broker.Stream.{
  EventType, MonitorEvent, Payload, RunEventStream, item, fresh_stream, trim, append_event,
  numbered_event, publish, publish_ending, ends_run, subscribe, unsubscribe, close_stream,
  replay_after, first_sequence, misses, gap_items, items, control_event, replay_gap, stream_ready,
}

-- The events carry consecutive numbers, the last one `end` - 1.
abbrev pub NumberedTo : ℕ → List MonitorEvent → Type 0
NumberedTo end [] = Unit {0}
NumberedTo end (e ∷ es) = (e.sequence ≡ some (end - suc (length es))) × NumberedTo end es

-- The buffer holds the last events of the stream, within its bound.
pub record IsOrdered (s : RunEventStream) : Type 0 where
  pub below : length s.buffer < s.next_sequence
  pub bounded : length s.buffer ≤ s.max_events
  pub numbers : NumberedTo s.next_sequence s.buffer

NumberedTo-append :
    (end : ℕ) (es : List MonitorEvent) (e : MonitorEvent)
    → NumberedTo end es
    → e.sequence ≡ some end
    → NumberedTo (suc end) (es ++ e ∷ [])
NumberedTo-append end [] e h k = (k ∙ ap some (omega arith), tt)
NumberedTo-append end (x ∷ es) e h k =
    (h.0 ∙ ap some (omega (arith, length-append es (e ∷ []))), NumberedTo-append end es e h.1 k)

length-trim : (n : ℕ) (es : List MonitorEvent) → length (trim n es) ≡ min n (length es)
unfolding trim
length-trim n [] = omega arith
length-trim n (e ∷ es) = ground (arith, length-trim n es)

NumberedTo-trim :
    (n end : ℕ) (es : List MonitorEvent) → NumberedTo end es → NumberedTo end (trim n es)
unfolding trim
NumberedTo-trim n end [] h = tt
NumberedTo-trim n end (e ∷ es) h = ground (arith, NumberedTo-trim n end es h.1)

append-IsOrdered :
    (kind : EventType) (body : Payload) (now : ℕ) (s : RunEventStream)
    → IsOrdered s
    → IsOrdered (append_event kind body now s).1
unfolding append_event
append-IsOrdered kind body now s o =
    let e : MonitorEvent = numbered_event s kind body now in
    record {
      below = omega (
        arith,
        o.below,
        length-trim s.max_events (s.buffer ++ e ∷ []),
        length-append s.buffer (e ∷ []),
      );
      bounded = omega (arith, length-trim s.max_events (s.buffer ++ e ∷ []));
      numbers =
          NumberedTo-trim s.max_events (s.next_sequence + 1) (s.buffer ++ e ∷ [])
            (rw add-one (NumberedTo-append s.next_sequence s.buffer e o.numbers refl));
    }

publish_ending-IsOrdered :
    (first : Option MonitorEvent) (kind : EventType) (body : Payload) (now : ℕ) (s : RunEventStream)
    → IsOrdered s
    → IsOrdered (publish_ending first kind body now s).1
publish_ending-IsOrdered none kind body now s o = append-IsOrdered kind body now s o
publish_ending-IsOrdered (some e) kind body now s o = o

publish-IsOrdered :
    (kind : EventType) (body : Payload) (now : ℕ) (s : RunEventStream)
    → IsOrdered s
    → IsOrdered (publish kind body now s).1
unfolding publish
publish-IsOrdered kind body now s o = elim (Bool-cases (ends_run kind)) [
  | inl ending ↦ rw ending (publish_ending-IsOrdered s.terminal_event kind body now s o)
  | inr plain ↦ rw plain (append-IsOrdered kind body now s o)
]

-- The calls on one stream.
pub data StreamCall : Type 0 where
  publishes : EventType → Payload → (now : ℕ) → StreamCall
  subscribes : (queue_size uuid after now : ℕ) → StreamCall
  unsubscribes : (uuid : ℕ) → StreamCall
  closes : StreamCall

unfoldable pub stream_step : RunEventStream → StreamCall → RunEventStream
stream_step s (publishes kind body now) = (publish kind body now s).1
stream_step s (subscribes queue_size uuid after now) = (subscribe queue_size uuid after now s).1
stream_step s (unsubscribes uuid) = unsubscribe uuid s
stream_step s closes = close_stream s

unfoldable pub stream_run : RunEventStream → List StreamCall → RunEventStream
stream_run s [] = s
stream_run s (c ∷ cs) = stream_run (stream_step s c) cs

pub step-IsOrdered :
    (s : RunEventStream) (c : StreamCall) → IsOrdered s → IsOrdered (stream_step s c)
unfolding stream_step subscribe unsubscribe close_stream
step-IsOrdered s (publishes kind body now) o = publish-IsOrdered kind body now s o
step-IsOrdered s (subscribes queue_size uuid after now) o = record {
  below = o.below;
  bounded = o.bounded;
  numbers = o.numbers;
}
step-IsOrdered s (unsubscribes uuid) o = record {
  below = o.below;
  bounded = o.bounded;
  numbers = o.numbers;
}
step-IsOrdered s closes o = record { below = o.below; bounded = o.bounded; numbers = o.numbers }

run-IsOrdered :
    (s : RunEventStream) (cs : List StreamCall) → IsOrdered s → IsOrdered (stream_run s cs)
unfolding stream_run
run-IsOrdered s [] o = o
run-IsOrdered s (c ∷ cs) o = run-IsOrdered (stream_step s c) cs (step-IsOrdered s c o)

pub run_fresh-IsOrdered :
    (t r max_events : ℕ) (cs : List StreamCall)
    → IsOrdered (stream_run (fresh_stream t r max_events) cs)
unfolding fresh_stream
run_fresh-IsOrdered t r max_events cs =
    run-IsOrdered _ cs (record { below = omega arith; bounded = omega arith; numbers = tt })

select_all :
    (after end : ℕ) (es : List MonitorEvent)
    → NumberedTo end es
    → NumberedTo end (replay_after after es)
      × (length (replay_after after es) ≡ min (length es) (end - suc after))
unfolding replay_after
select_all after end [] h = (tt, omega arith)
select_all after end (e ∷ es) h = ground (arith, select_all after end es h.1)

lost_lem :
    (after end : ℕ) (es : List MonitorEvent)
    → NumberedTo end es
    → length es < end
    → (misses after (first_sequence es end) ≡ false)
      ↔ (length (replay_after after es) ≡ end - suc after)
unfolding replay_after
lost_lem after end [] h k = ground arith
lost_lem after end (e ∷ es) h k = ground (arith, select_all after end es h.1)

length-items : (es : List MonitorEvent) → length (items es) ≡ length es
length-items [] = refl
length-items (e ∷ es) = ap suc (length-items es)

length-queue :
    (lost : Bool) (gap ready : MonitorEvent) (es : List MonitorEvent)
    → length (gap_items lost gap ++ items es ++ item ready ∷ [])
      ≡ (if lost then 1 else 0) + length es + 1
length-queue true gap ready es =
    omega (arith, length-append (items es) (item ready ∷ []), length-items es)
length-queue false gap ready es =
    omega (arith, length-append (items es) (item ready ∷ []), length-items es)

-- The numbers and the length of what a client is sent first.
pub subscribe_replays :
    (queue_size uuid after now : ℕ) (s : RunEventStream)
    → IsOrdered s
    → let (client, s') = subscribe queue_size uuid after now s in
      let replay = replay_after after s.buffer in
      let lost = misses after (first_sequence s.buffer s.next_sequence) in
      (NumberedTo s.next_sequence replay)
      × ((lost ≡ false) ↔ (length replay ≡ s.next_sequence - suc after))
      × (length client.queue ≡ (if lost then 1 else 0) + length replay + 1)
      × (length client.queue < client.maxsize)
      × (s'.subscribers ≡ client ∷ s.subscribers)
      × (s'.next_sequence ≡ s.next_sequence)
unfolding subscribe
subscribe_replays queue_size uuid after now s o =
    let earliest = first_sequence s.buffer s.next_sequence in
    let replay = replay_after after s.buffer in
    let queue_length =
      length-queue (misses after earliest)
        (control_event uuid s.thread_id s.run_id (replay_gap after earliest) now)
        (control_event uuid s.thread_id s.run_id (stream_ready (s.next_sequence - 1) earliest) now)
        replay in
    (
      (select_all after s.next_sequence s.buffer o.numbers).0,
      lost_lem after s.next_sequence s.buffer o.numbers o.below,
      queue_length,
      ground (arith, queue_length),
      refl,
      refl,
    )
