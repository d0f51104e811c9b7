-- ===== src/Registry/Starts.antt =====
-- start_run and create_thread of app/api/run_registry.py, and the events that a new thread publishes.
-- `asyncio.create_task` is modelled by the handle that is returned.
use globuy.Prelude.{
  ℕ, Bool, false, Option, none, some, [], ◌∷◌, ◌==◌, delete_where, same_option, if◌then◌else◌,
}
use globuy.Sessions.Schema.{
  Text, Thread, starting, Response, thread_created, run_started, create_thread, Operation,
}
use globuy.Sessions.Action.{Result, ok, err, active_thread_changed, service_shutting_down}
use globuy.Sessions.Rows.{stored_response, active_row}
use globuy.Sessions.Threads.{replace_thread}
use globuy.Sessions.Runs.{create_run}
use globuy.Broker.Stream.{given, custom}
use globuy.Broker.Table.{ensure_stream, publish_to}
use globuy.Registry.Task.{World, RunHandle}
use globuy.Registry.Control.{Call, and_then, find_handle, clear_thread}

-- The arguments of start_run, with the identifiers and times that it makes.
pub record StartRun : Type 0 where
  pub query : Text
  pub thread_id : ℕ
  pub user_id : ℕ
  pub client_request_id : ℕ
  pub run_id : ℕ
  pub message_id : ℕ
  pub created_at : ℕ
  pub now : ℕ

-- The response, and the handle of the task that was created.
abbrev pub Started : Type 0
Started = Response × Option RunHandle

abbrev pub new_handle : StartRun → RunHandle
new_handle a = record {
  thread_id = a.thread_id;
  run_id = a.run_id;
  user_id = a.user_id;
  query = a.query;
  status = starting;
  cancel_requested = false;
}

abbrev pub names_run : ℕ → Response → Bool
names_run r (run_started t r' replaced created) = r' == r
names_run r (thread_created t created thread run) = false

-- `active_tasks[thread_id] = handle`
abbrev pub set_handle : RunHandle → World → World
set_handle h w = record w { active = h ∷ delete_where (λ x. x.thread_id == h.thread_id) w.active }

abbrev pub open_stream : ℕ → ℕ → ℕ → World → World
open_stream t r now w = record w { broker = (ensure_stream t r now w.broker).1 }

abbrev pub start_task : StartRun → Response → Result Response → Call Started
start_task a response (err e) w = (err e, w)
start_task a response (ok stored) w =
    if names_run a.run_id stored
    then (
      ok (response, some (new_handle a)),
      set_handle (new_handle a) (open_stream a.thread_id a.run_id a.now w),
    )
    else (ok (stored, none), w)

abbrev pub request_start : (ℕ → Bool) → StartRun → Option ℕ → Call Started
request_start is_space a replaced w =
    let response = run_started a.thread_id a.run_id replaced a.created_at in
    let (stored, db) =
      create_run is_space a.user_id a.thread_id a.run_id a.query a.client_request_id a.message_id
        a.created_at response w.db in
    start_task a response stored (record w { db = db })

abbrev pub start_unless :
    (World → World × Bool) → (ℕ → Bool) → StartRun → Option Response → Call Started
start_unless waits is_space a (some idem) w = (ok (idem, none), w)
start_unless waits is_space a none w =
    and_then (request_start is_space a) (clear_thread waits a.now (find_handle a.thread_id w) w)

-- `closing` is the registry's flag.
unfoldable pub start_run : Bool → (World → World × Bool) → (ℕ → Bool) → StartRun → Call Started
start_run closing waits is_space a w =
    if closing
    then (err service_shutting_down, w)
    else start_unless waits is_space a
        (stored_response a.user_id a.client_request_id Operation.create_run w.db) w

pub record CreateThread : Type 0 where
  pub user_id : ℕ
  pub current_thread_id : Option ℕ
  pub client_request_id : ℕ
  pub new_thread_id : ℕ
  pub now : ℕ

-- The run of the archived thread is told so.
abbrev pub tell_archived : ℕ → Option ℕ → Option ℕ → World → World
tell_archived now (some t) (some r) w = record w {
  broker = (publish_to t r custom (given []) now w.broker).1;
}
tell_archived now _ _ w = w

abbrev pub after_replacing : ℕ → Result Response → Call Response
after_replacing now (err e) w = (err e, w)
after_replacing now (ok (thread_created t created thread run)) w =
    (ok (thread_created t created thread run), tell_archived now thread run w)
after_replacing now (ok (run_started t r replaced created)) w =
    (ok (run_started t r replaced created), w)

abbrev pub request_replace : CreateThread → Call Response
request_replace a w =
    let (got, db) =
      replace_thread a.user_id a.current_thread_id a.client_request_id a.new_thread_id a.now w.db in
    after_replacing a.now got (record w { db = db })

abbrev pub clear_active : (World → World × Bool) → CreateThread → Option Thread → Call (Option ℕ)
clear_active waits a none w = elim a.current_thread_id [
  | none ↦ (ok none, w)
  | some t ↦ (err (active_thread_changed none), w)
]
clear_active waits a (some x) w =
    if same_option (some x.thread_id) a.current_thread_id
    then clear_thread waits a.now (find_handle x.thread_id w) w
    else (err (active_thread_changed (some x.thread_id)), w)

abbrev pub create_unless : (World → World × Bool) → CreateThread → Option Response → Call Response
create_unless waits a (some idem) w = (ok idem, w)
create_unless waits a none w =
    and_then (λ _. request_replace a) (clear_active waits a (active_row a.user_id w.db) w)

unfoldable pub create_thread_for : (World → World × Bool) → CreateThread → Call Response
create_thread_for waits a w =
    create_unless waits a (stored_response a.user_id a.client_request_id create_thread w.db) w
