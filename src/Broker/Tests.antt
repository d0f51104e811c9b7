-- ===== src/Broker/Tests.antt =====
-- A stream of two buffered events, with concrete calls.
use globuy.Prelude.{
  ℕ, drop, map, ltb, ◌++◌, ◌==◌, ◌&&◌, Option, ◌+◌, ◌-◌, ◌<◌, ◌≡◌, refl, suc, length, true, false,
  none, some, [], ◌∷◌, if◌then◌else◌, List,
}
use globuy.Broker.Stream.{
  RunEventStream, Payload, Item, item, connection, replay_gap, stream_ready, given, fresh_stream,
  publish, subscribe, append_event, text_message_content, custom, run_finished, run_error, ends_run,
  trim, deliver, cut_off_full,
}
use globuy.Broker.Order.{
  StreamCall, publishes, subscribes, stream_run, stream_step, IsOrdered, run_fresh-IsOrdered,
}
use globuy.Broker.Table.{EventBroker, find_stream, prune}
use globuy.Broker.Isolation.{BrokerCall, to_publish, broker_run, calls_of, stream_in_isolation}
use globuy.Broker.Monitor.{
  text, other, EventData, AgentEvent, Scope, get_value, message_key, source_key, text_only,
  internal_data, emit,
}
use globuy.Broker.Envelope.{envelope_field, report_reaches_root}
use globuy.Broker.Log.{published, buffer_holds_last, subscribe_queue}
use globuy.Broker.Ending.{AllFit, ends_once, queues_bounded}

-- A client with a queue of size 4 joins, and four events are published.
abbrev calls : List StreamCall
calls =
    subscribes 4 900 0 10
    ∷ publishes text_message_content (given []) 11
    ∷ publishes text_message_content (given []) 12
    ∷ publishes text_message_content (given []) 13
    ∷ publishes text_message_content (given []) 14
    ∷ []

abbrev later : RunEventStream
later = stream_run (fresh_stream 1 7 2) calls

later-IsOrdered : IsOrdered later
later-IsOrdered = run_fresh-IsOrdered 1 7 2 calls

buffer_holds_last_example :
    let all = published 1 7 1 false calls in
    (later.buffer ≡ drop (length all - 2) all) × (later.next_sequence ≡ length all + 1)
buffer_holds_last_example = buffer_holds_last 1 7 2 calls

-- A client that has seen the first event: the second is no longer buffered.
subscribe_queue_example :
    let (client, s') = subscribe 4 901 1 20 later in
    let behind = later.next_sequence - suc 1 in
    let size = length later.buffer in
    let earliest = some (later.next_sequence - size) in
    let control : Payload → Item = λ body. item (record {
      event = custom;
      event_id = connection 901;
      sequence = none;
      thread_id = later.thread_id;
      run_id = later.run_id;
      timestamp = 20;
      body = body;
    }) in
    (client.queue
      ≡ (if ltb size behind then control (replay_gap 1 earliest) ∷ [] else [])
        ++ map item (drop (size - behind) later.buffer)
        ++ control (stream_ready (later.next_sequence - 1) earliest) ∷ [])
    × (length client.queue < client.maxsize)
    × (client.subscription_id ≡ 901)
    × (s' ≡ record later { subscribers = client ∷ later.subscribers })
subscribe_queue_example = subscribe_queue 4 901 1 20 later later-IsOrdered

not_ended : later.terminal_event ≡ none
unfolding fresh_stream stream_run stream_step subscribe publish append_event ends_run trim deliver
    cut_off_full
not_ended = refl

finished_ends : ends_run run_finished ≡ true
unfolding ends_run
finished_ends = refl

error_ends : ends_run run_error ≡ true
unfolding ends_run
error_ends = refl

ends_once_example :
    let (first, after) = publish run_finished (given []) 21 later in
    publish run_error (given []) 23 (stream_run after calls) ≡ (first, stream_run after calls)
ends_once_example =
    ends_once later run_finished (given []) 21 not_ended finished_ends calls run_error (given []) 23
      error_ends

queues_bounded_example : AllFit (stream_run (fresh_stream 1 7 2) calls)
queues_bounded_example = queues_bounded 1 7 2 calls

-- Two runs on one broker.
abbrev broker : EventBroker
broker = record {
  buffer_size = 2;
  retention = 50;
  subscriber_queue_size = 4;
  streams = fresh_stream 1 7 2 ∷ [];
}

abbrev mixed : List BrokerCall
mixed =
    record { thread_id = 1; run_id = 7; request = to_publish text_message_content (given []) 11 }
    ∷ record { thread_id = 2; run_id = 8; request = to_publish run_finished (given []) 12 }
    ∷ record { thread_id = 1; run_id = 7; request = to_publish text_message_content (given []) 90 }
    ∷ []

seven_found : find_stream 1 7 broker ≡ some (fresh_stream 1 7 2)
unfolding find_stream fresh_stream
seven_found = refl

seven_runs : (stream_run (fresh_stream 1 7 2) (calls_of 4 1 7 mixed)).terminal_at ≡ none
unfolding fresh_stream stream_run stream_step calls_of subscribe publish append_event ends_run trim
    deliver cut_off_full
seven_runs = refl

stream_in_isolation_example :
    find_stream 1 7 (broker_run broker mixed)
    ≡ some (stream_run (fresh_stream 1 7 2) (calls_of 4 1 7 mixed))
stream_in_isolation_example =
    stream_in_isolation 1 7 broker (fresh_stream 1 7 2) mixed seven_found seven_runs

-- A tool of a nested agent, in thread 3, reports to the thread 1 of the root.
abbrev nested : Scope
nested = record { thread_id = some 3; run_id = some 7; publish_thread_id = some 1 }

abbrev report : EventData
report = (message_key, text (104 ∷ 105 ∷ [])) ∷ (110 ∷ [], other 5) ∷ []

abbrev two_runs : EventBroker
two_runs = record broker { streams = fresh_stream 1 7 2 ∷ fresh_stream 2 8 2 ∷ [] }

abbrev digits : ℕ → List ℕ
digits n = (48 + n) ∷ []

abbrev packed : Option (List ℕ) → EventData → List ℕ
packed none d = []
packed (some t) d = t

seven_there : find_stream 1 7 two_runs ≡ some (fresh_stream 1 7 2)
unfolding find_stream fresh_stream
seven_there = refl

eight_there : find_stream 2 8 two_runs ≡ some (fresh_stream 2 8 2)
unfolding find_stream fresh_stream
eight_there = refl

still_runs : (t r : ℕ) → (fresh_stream t r 2).terminal_at ≡ none
unfolding fresh_stream
still_runs t r = refl

-- The source is added behind the data that are given.
sent_data :
    internal_data digits packed 1
      (record { kind = custom; thread_id = 3; run_id = 7; timestamp = 9; body = report })
    ≡ (110 ∷ [], other 5) ∷ (source_key, text (51 ∷ [])) ∷ []
unfolding internal_data
sent_data = refl

-- The broker of a single run.
abbrev one_run : EventBroker
one_run = record two_runs { streams = fresh_stream 1 7 2 ∷ [] }

seven_alone : find_stream 1 7 one_run ≡ some (fresh_stream 1 7 2)
unfolding find_stream fresh_stream
seven_alone = refl

report_reaches_root_example :
    let x : AgentEvent = record {
      kind = custom;
      thread_id = 3;
      run_id = 7;
      timestamp = 9;
      body = report;
    } in
    let sent = internal_data digits packed 1 x in
    (after : EventBroker) × (emit digits packed nested custom report 9 one_run ≡ some (x, after))
    × (get_value source_key sent ≡ envelope_field digits 1 3 report source_key)
    × (find_stream 1 7 after ≡ (
        if 1 == 1 && 7 == 7
        then some
            (publish custom
              (given (packed (text_only (get_value message_key report)) sent))
              9
              (fresh_stream 1 7 2)).1
        else find_stream 1 7 (prune 9 one_run)))
report_reaches_root_example =
    report_reaches_root digits packed nested custom 3 7 1 9 report one_run (fresh_stream 1 7 2)
      source_key 1 7 refl refl refl seven_alone (still_runs 1 7)
