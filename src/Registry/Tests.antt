-- ===== src/Registry/Tests.antt =====
-- The task of a run, and what it prints, on concrete data.
use globuy.Prelude.{arith, ℕ, ◌≡◌, refl, Bool, false, none, some, [], ◌∷◌, any, ◌==◌, ◌&&◌}
use globuy.Sessions.Schema.{
  Db, run_started, succeeded, starting, is_live, is_terminal, iso, from_iso,
}
use globuy.Sessions.Action.{ok, run}
use globuy.Sessions.Rows.{
  insert_thread, insert_key, insert_run, insert_message, user_exists, stored_response, active_row,
  thread_row, live_run, run_row, next_ordinal, is_occupied, max_ordinal,
}
use globuy.Sessions.Threads.{
  replace_thread, request_thread, replace_active, open_thread, retire, put_away,
}
use globuy.Sessions.Runs.{
  create_run, admit_run, write_run, get_run, set_run_status, StoreConfig, fresh_run,
}
use globuy.Sessions.Sound.{IsSound, empty-IsSound}
use globuy.Sessions.SoundThreads.{replace_thread-IsSound}
use globuy.Sessions.SoundRuns.{create_run-IsSound}
use globuy.Broker.Stream.{given, run_finished, task_cancelled, fresh_stream}
use globuy.Broker.Table.{EventBroker, find_stream}
use globuy.Broker.Isolation.{to_publish, to_subscribe}
use globuy.Registry.Task.{
  World, Task, RunHandle, Script, mine, others, marks_cancelling, calls, passes, by_cancel, execute,
}
use globuy.Registry.Final.{missing_text}
use globuy.Registry.Streams.{HasOpen}
use globuy.Registry.Rows.{HasLive}
use globuy.Registry.Ends.{delta_count, ending, shows, closes_at, closes_late}
use globuy.Registry.Phases.{LeavesOpen}
use globuy.Registry.Lifecycle.{every_run_ends}
use globuy.Registry.View.{RunStatusView, run_status}
use globuy.Registry.Seen.{ended_run_is_seen}
use globuy.Registry.Task.{body, run_turns, perform, disturb, handler}
use globuy.Registry.Streams.{type_of}
use globuy.Broker.Stream.{
  ends_run, publish, append_event, trim, deliver, cut_off_full, subscribe, control_event,
  replay_after,
}
use globuy.Broker.Table.{publish_to, subscribe_to, prune, ensure_stream, cursor_info}
use globuy.Prelude.{Option, List}
use globuy.Sessions.Artifacts.{list_artifacts}
use globuy.Sessions.Runs.{finish_run, write_outcome, add_answer, consolidate_later}
use globuy.Sessions.Rows.{insert_result, insert_consolidation, consolidation_row}
use globuy.Registry.Agent.{
  AgentState, GraphEvent, GraphEventKind, globuy_final_state, on_chain_end, final_state_of,
}
use globuy.Registry.Search.{
  or_else, last_output, is_authority, is_root_end, final_state-last_output,
}

abbrev pub blank : ℕ → Bool
blank c = c == 32

abbrev pub config : StoreConfig
config = record { memory_run_threshold = 5; memory_idle_seconds = 3600 }

abbrev pub nobody : Db
nobody = record {
  users = 1 ∷ [];
  threads = [];
  runs = [];
  results = [];
  messages = [];
  consolidations = [];
  keys = [];
}

-- User 1 opens thread 10, and run 7 starts in it.
abbrev pub opened : Db
opened = (replace_thread 1 none 100 10 5000 nobody).1

abbrev pub tables : Db
tables = (create_run blank 1 10 7 (104 ∷ []) 101 50 6 (run_started 10 7 none 6) opened).1

abbrev pub broker : EventBroker
broker = record {
  buffer_size = 4;
  retention = 100;
  subscriber_queue_size = 8;
  streams = fresh_stream 10 7 4 ∷ [];
}

abbrev pub handle : RunHandle
handle = record {
  thread_id = 10;
  run_id = 7;
  user_id = 1;
  query = 104 ∷ [];
  status = starting;
  cancel_requested = false;
}

abbrev pub task : Task
task = record {
  world = record { db = tables; broker = broker; active = handle ∷ [] };
  now = 7000;
  deltas = [];
  message_started = false;
}

-- The agent streams two chunks and adds a third; a cancellation arrives behind the closing of the row.
abbrev pub late_cancel : Script
late_cancel = record {
  chunks = (65 ∷ []) ∷ (66 ∷ []) ∷ [];
  final_text = 65 ∷ 66 ∷ 67 ∷ [];
  result = 82 ∷ [];
  message = [];
  stop = some (8, by_cancel);
  late_stop = none;
  turns =
      mine
      ∷ others (calls 10 7 (to_subscribe 0 1 7001))
      ∷ mine
      ∷ others marks_cancelling
      ∷ others (passes 3)
      ∷ [];
  late_turns = others (calls 11 8 (to_publish run_finished (given []) 7100)) ∷ [];
}

tables_row : run_row 10 7 tables ≡ some (fresh_run 7 10 (104 ∷ []) 6000)
unfolding replace_thread request_thread replace_active open_thread retire put_away create_run
    admit_run write_run run insert_thread insert_key insert_run insert_message user_exists
    stored_response active_row thread_row live_run run_row next_ordinal max_ordinal is_occupied iso
    from_iso
tables_row = refl

fresh_answer : any (λ y. y.message_id == 51) tables.messages ≡ false
unfolding replace_thread request_thread replace_active open_thread retire put_away create_run
    admit_run write_run run insert_thread insert_key insert_run insert_message user_exists
    stored_response active_row thread_row live_run run_row next_ordinal max_ordinal is_occupied iso
    from_iso
fresh_answer = refl

pub tables-IsSound : IsSound tables
tables-IsSound =
    create_run-IsSound blank 1 10 7 (104 ∷ []) 101 50 6 (run_started 10 7 none 6) opened
      (replace_thread-IsSound 1 none 100 10 5000 nobody (empty-IsSound (1 ∷ [])))

run_7-HasLive : HasLive 10 7 51 tables
unfolding is_live
run_7-HasLive = record {
  sound = tables-IsSound;
  row = fresh_run 7 10 (104 ∷ []) 6000;
  found = tables_row;
  live = refl;
  fresh = fresh_answer;
}

run_7-HasOpen : HasOpen 10 7 broker
unfolding find_stream fresh_stream
run_7-HasOpen = record {
  stream = fresh_stream 10 7 4;
  found = refl;
  unended = refl;
  undated = refl;
}

abbrev world_after : World
world_after = (execute config 10 7 51 late_cancel task).world

late_cancel_turns : LeavesOpen 10 7 51 (closes_at (delta_count late_cancel)) late_cancel.turns
unfolding delta_count missing_text
late_cancel_turns = (λ e. tt, (omega arith, (tt, tt)))

late_cancel_later :
    LeavesOpen 10 7 51
      (closes_late (delta_count late_cancel) late_cancel.stop)
      late_cancel.late_turns
unfolding delta_count missing_text
late_cancel_later = (λ e. cc, tt)

every_run_ends_example :
    (shows 10 7 world_after ≡ (
      some (ending (delta_count late_cancel) late_cancel.stop).0,
      some (ending (delta_count late_cancel) late_cancel.stop).1,
    ))
    × (any (λ h. h.thread_id == 10 && h.run_id == 7) world_after.active ≡ false)
every_run_ends_example =
    every_run_ends config 10 7 51 late_cancel task run_7-HasLive run_7-HasOpen refl
      late_cancel_turns late_cancel_later

late_cancel_ends : ending (delta_count late_cancel) late_cancel.stop ≡ (succeeded, task_cancelled)
unfolding ending delta_count missing_text
late_cancel_ends = refl

-- A graph that ends, and then states its final state.
abbrev ended_state : AgentState
ended_state = record { messages = []; terminal_result = none }

abbrev event : GraphEventKind → GraphEvent
event kind = record {
  kind = kind;
  has_parents = false;
  output = some ended_state;
  is_summary = false;
  delta = [];
}

final_state-last_output_example :
    (final_state_of (none, false) (event on_chain_end ∷ event globuy_final_state ∷ [])).0
    ≡ or_else
        (last_output is_authority (event on_chain_end ∷ event globuy_final_state ∷ []))
        (last_output is_root_end (event on_chain_end ∷ event globuy_final_state ∷ []))
final_state-last_output_example =
    final_state-last_output (event on_chain_end ∷ event globuy_final_state ∷ [])

-- What a client is shown of the run that was cancelled late.
abbrev as_stored : Option (List ℕ) → Option (List ℕ)
as_stored result = result

abbrev seen_view : RunStatusView
seen_view = record {
  status = succeeded;
  created_at = 6000;
  started_at = some 7000;
  finished_at = some 7003;
  cursor = cursor_info 10 7 world_after.broker;
  result = some (82 ∷ []);
  artifacts = [];
  error = none;
}

-- A proof that runs a task names this, which opens the store, the broker and the task.
unfoldable pub code : World → World
unfolding execute body run_turns perform disturb handler missing_text run_status get_run
    list_artifacts set_run_status finish_run write_outcome add_answer consolidate_later
    replace_thread request_thread replace_active open_thread retire put_away create_run admit_run
    write_run run insert_thread insert_key insert_run insert_message insert_result
    insert_consolidation consolidation_row user_exists stored_response active_row thread_row
    live_run run_row next_ordinal max_ordinal is_occupied iso from_iso is_terminal is_live
    publish_to subscribe_to ensure_stream prune find_stream fresh_stream publish append_event trim
    deliver cut_off_full subscribe control_event replay_after ends_run cursor_info
code w = w

is_answered : run_status as_stored 10 7 world_after [] ≡ ok seen_view
unfolding code
is_answered = refl

ended_run_is_seen_example :
    (succeeded ≡ (ending (delta_count late_cancel) late_cancel.stop).0)
    × (type_of (cursor_info 10 7 world_after.broker).terminal_event
        ≡ some (ending (delta_count late_cancel) late_cancel.stop).1)
ended_run_is_seen_example =
    ended_run_is_seen config as_stored 10 7 51 late_cancel task [] seen_view run_7-HasLive
      run_7-HasOpen refl late_cancel_turns late_cancel_later is_answered
