-- ===== src/Registry/Task.antt =====
-- RunRegistry._execute and _execute_observed of app/api/run_registry.py: the task of one run. Its
-- awaits are moves; other tasks may act between two of them. The observation only records, and is
-- left out.
use Prim.Native.String.{String}
use globuy.Prelude.{
  ℕ, ◌+◌, Bool, true, false, ◌&&◌, Option, none, some, List, [], ◌∷◌, ◌++◌, ◌==◌, ltb, length, take,
  delete_where, update_where, if◌then◌else◌,
}
use globuy.Sessions.Schema.{Db, Text, RunStatus, running, cancelling, succeeded, cancelled, failed}
use globuy.Sessions.Action.{Result, ok, err}
use globuy.Sessions.Runs.{set_run_status, finish_run, StoreConfig, Outcome, is_succeeded}
use globuy.Broker.Stream.{
  EventType, Payload, given, run_started, custom, text_message_start, text_message_content,
  text_message_end, run_finished, run_error, task_cancelled,
}
use globuy.Broker.Table.{EventBroker, publish_to}
use globuy.Broker.Isolation.{Request, perform_on}
use globuy.Registry.Agent.{is_nonempty}
use globuy.Registry.Final.{missing_text}

-- RunHandle: the identity of a task is its run. `cancel_requested` is what `task.cancel()` leaves.
pub record RunHandle : Type 0 where
  pub thread_id : ℕ
  pub run_id : ℕ
  pub user_id : ℕ
  pub query : Text
  pub status : RunStatus
  pub cancel_requested : Bool

-- What the tasks share: the store's tables, the broker and `active_tasks`.
pub record World : Type 0 where
  pub db : Db
  pub broker : EventBroker
  pub active : List RunHandle

abbrev pub is_handle : ℕ → ℕ → RunHandle → Bool
is_handle t r h = h.thread_id == t && h.run_id == r

abbrev pub change_handle : ℕ → ℕ → (RunHandle → RunHandle) → World → World
change_handle t r f w = record w { active = update_where (is_handle t r) f w.active }

-- A task with its local variables and the clock.
pub record Task : Type 0 where
  pub world : World
  pub now : ℕ
  pub deltas : List Text
  pub message_started : Bool

-- The task that `_execute` begins with.
abbrev pub new_task : World → ℕ → Task
new_task w now = record { world = w; now = now; deltas = []; message_started = false }

pub data Move : Type 0 where
  set_running : Move
  say : EventType → Payload → Move
  open_message : Payload → Move
  add_delta : Text → Move
  finish : Outcome → Move
  end_with : EventType → Payload → Option RunStatus → Move

abbrev pub is_error {ℓ} : {A : Type ℓ} → Result A → Bool
is_error (ok a) = false
is_error (err e) = true

-- Another task's act: the mark of a cancellation, a write of its own to the tables, a call of the
-- broker, or time that passes. cancel_run looks at the run before it waits for the lock, so its mark
-- falls whatever the run has become.
pub data Other : Type 0 where
  marks_cancelling : Other
  writes : (Db → Db) → Other
  calls : (thread_id run_id : ℕ) → Request → Other
  passes : ℕ → Other

pub data Turn : Type 0 where
  mine : Turn
  others : Other → Turn

pub data Stop : Type 0 where
  by_cancel by_error : Stop

abbrev pub on_broker : (EventBroker → EventBroker) → Task → Task
on_broker f k = record k { world = record k.world { broker = f k.world.broker } }

abbrev pub on_db : (Db → Db) → Task → Task
on_db f k = record k { world = record k.world { db = f k.world.db } }

abbrev pub unless_raised : Bool → Task × Bool → Task → Task × Bool
unless_raised true rest k = (k, true)
unless_raised false rest k = rest

abbrev pub add_deltas : List Text → List Move
add_deltas [] = []
add_deltas (d ∷ ds) = add_delta d ∷ add_deltas ds

abbrev pub concat_text : List Text → Text
concat_text [] = []
concat_text (d ∷ ds) = d ++ concat_text ds

abbrev pub nonempty_text : Text → List Text
nonempty_text [] = []
nonempty_text (c ∷ cs) = (c ∷ cs) ∷ []

abbrev pub stop_status : Stop → RunStatus
stop_status by_cancel = cancelled
stop_status by_error = failed

abbrev pub stop_event : Stop → EventType
stop_event by_cancel = task_cancelled
stop_event by_error = run_error

abbrev pub end_message : Bool → List Move
end_message true = say text_message_end (given []) ∷ []
end_message false = []

-- How a run goes: what the agent gives, after how many moves it is interrupted, if at all, after how
-- many moves its `except` block is interrupted, if at all, and the turns of the other tasks before and
-- after.
pub record Script : Type 0 where
  pub chunks : List Text
  pub final_text : Text
  pub result : Text
  pub message : Text
  pub stop : Option (ℕ × Stop)
  pub late_stop : Option ℕ
  pub turns : List Turn
  pub late_turns : List Turn

abbrev pub stop_after : Option (ℕ × Stop) → List Move → List Move
stop_after none ms = ms
stop_after (some (n, why)) ms = take n ms

abbrev pub cut_off_at : Option ℕ → List Move → List Move
cut_off_at none ms = ms
cut_off_at (some n) ms = take n ms

-- What the `try` block was left by.
abbrev pub left_by : Bool → Option (ℕ × Stop) → ℕ → Option Stop
left_by true stop length = some by_error
left_by false none length = none
left_by false (some (n, why)) length = if ltb n length then some why else none

-- `handle.status = ...`, where there is such a line.
abbrev pub take_status : Option RunStatus → RunHandle → RunHandle
take_status none h = h
take_status (some status) h = record h { status = status }

abbrev pub with_status : ℕ → ℕ → Option RunStatus → Task → Task
with_status t r status k = record k { world = change_handle t r (take_status status) k.world }

-- Only the outcome of success is followed by such a line at once.
abbrev pub status_behind : Bool → Outcome → Option RunStatus
status_behind true o = none
status_behind false o = if is_succeeded o.status then some succeeded else none

module _ (cfg : StoreConfig) (t r message_id : ℕ) where
  abbrev pub publishes_event : EventType → Payload → Task → Task
  publishes_event kind body k = on_broker (λ b. (publish_to t r kind body k.now b).1) k

  -- A move, and whether it raised.
  unfoldable pub perform : Move → Task → Task × Bool
  perform set_running k =
      let (got, db) = set_run_status t r running none none k.now k.world.db in
      (on_db (λ _. db) (with_status t r (some running) k), is_error got)
  perform (say kind body) k = (publishes_event kind body k, false)
  perform (open_message body) k =
      (record (publishes_event text_message_start body k) { message_started = true }, false)
  perform (add_delta text) k = (
    record (publishes_event text_message_content (given text) k) { deltas = k.deltas ++ text ∷ [] },
    false,
  )
  perform (finish o) k =
      let (got, db) = finish_run cfg t r o k.now k.world.db in
      (with_status t r (status_behind (is_error got) o) (on_db (λ _. db) k), is_error got)
  perform (end_with kind body status) k =
      (with_status t r status (publishes_event kind body k), false)

  unfoldable pub disturb : Other → Task → Task
  disturb marks_cancelling k =
      on_db (λ db. (set_run_status t r cancelling none none k.now db).1)
        (with_status t r (some cancelling) k)
  disturb (writes f) k = on_db f k
  disturb (calls t' r' q) k = on_broker (perform_on t' r' q) k
  disturb (passes n) k = record k { now = k.now + n }

  -- The moves in their order, with other tasks between them as the turns say. When the turns are
  -- used up, the rest runs undisturbed.
  unfoldable pub run_turns : List Turn → List Move → Task → Task × Bool
  unfolding perform disturb
  run_turns ts [] k = (k, false)
  run_turns [] (m ∷ ms) k =
      let (k', raised) = perform m k in unless_raised raised (run_turns [] ms k') k'
  run_turns (mine ∷ ts) (m ∷ ms) k =
      let (k', raised) = perform m k in unless_raised raised (run_turns ts ms k') k'
  run_turns (others o ∷ ts) (m ∷ ms) k = run_turns ts (m ∷ ms) (disturb o k)

  abbrev pub outcome : RunStatus → Text → Option Text → Bool → Option String → Option Text → Outcome
  outcome status text result is_partial code message = record {
    status = status;
    final_text = text;
    result = result;
    message_id = message_id;
    is_partial = is_partial;
    error_code = code;
    error_message = message;
  }

  -- The `try` block for an agent that streams `chunks` and leaves `final_text` and `result`.
  unfoldable pub body : List Text → Text → Text → List Move
  unfolding missing_text
  body chunks final_text result =
      set_running
        ∷ say run_started (given [])
        ∷ say custom (given [])
        ∷ open_message (given [])
        ∷ add_deltas (chunks ++ nonempty_text (missing_text final_text (concat_text chunks)))
      ++ finish (outcome succeeded final_text (some result) false none none)
        ∷ say text_message_end (given [])
        ∷ say custom (given result)
        ∷ end_with run_finished (given []) none
        ∷ []

  abbrev pub stop_outcome : Stop → Text → Text → Outcome
  stop_outcome by_cancel partial message =
      outcome cancelled partial none (is_nonempty partial) none none
  stop_outcome by_error partial message =
      outcome failed partial none (is_nonempty partial) (some "AGENT_RUN_FAILED") (some message)

  -- The two `except` blocks. `message` is the public message of a failure.
  unfoldable pub handler : Stop → Text → Task → List Move
  handler why message k =
      finish (stop_outcome why (concat_text k.deltas) message) ∷ end_message k.message_started
      ++ end_with (stop_event why) (given message) (some (stop_status why)) ∷ []

  -- The `finally` block.
  abbrev pub leave_active : Task → Task
  leave_active k = record k {
    world = record k.world {
      active = delete_where (λ h. h.thread_id == t && h.run_id == r) k.world.active;
    };
  }

  abbrev pub handle_stop : Option Stop → Text → Option ℕ → List Turn → Task → Task
  handle_stop none message late ts k = k
  handle_stop (some why) message late ts k =
      (run_turns ts (cut_off_at late (handler why message k)) k).0

  unfoldable pub execute : Script → Task → Task
  unfolding body run_turns handler
  execute s k =
      let moves = body s.chunks s.final_text s.result in
      let (k', raised) = run_turns s.turns (stop_after s.stop moves) k in
      leave_active
        (handle_stop (left_by raised s.stop (length moves)) s.message s.late_stop s.late_turns k')
