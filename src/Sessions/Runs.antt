-- ===== src/Sessions/Runs.antt =====
-- create_run, set_run_status, finish_run and get_run of app/database/session_store.py.
use Prim.Native.String.{String}
use globuy.Prelude.{
  same_text, ℕ, ◌+◌, ◌*◌, Bool, true, false, ◌&&◌, not, Option, none, some, [], ◌∷◌, ◌==◌,
  find_first, leb, count_if, if◌then◌else◌,
}
use globuy.Sessions.Schema.{
  Text, Thread, ThreadStatus, Run, RunStatus, RunResult, Message, Consolidation, Response, starting,
  running, succeeded, is_terminal, is_active, user, assistant, Operation, from_iso,
}
use globuy.Sessions.Action.{
  Action, user_not_found, thread_not_found, thread_archived, run_not_found, run_replacement_timeout,
  pure, raise, gets, modify, raise_if, or_raise, transaction, ◌>>=◌, ◌>>◌,
}
use globuy.Sessions.Rows.{
  is_thread, is_run, user_exists, stored_response, thread_row, live_run, run_row, consolidation_row,
  next_ordinal, insert_run, insert_message, insert_result, insert_consolidation, insert_key,
  update_threads, update_runs, update_consolidations,
}
use globuy.Sessions.Title.{title, new_conversation}
use globuy.Sessions.Threads.{unless_stored}

abbrev pub refuse_running : Option Run → Action (Unit {0})
refuse_running none = pure tt
refuse_running (some r) = raise (run_replacement_timeout r.run_id)

-- The first query of a thread names it.
abbrev pub retitle : (ℕ → Bool) → Text → Text → Text
retitle is_space query old = if same_text old new_conversation then title is_space query else old

abbrev pub fresh_run : ℕ → ℕ → Text → ℕ → Run
fresh_run r t query now = record {
  run_id = r;
  thread_id = t;
  status = starting;
  query = query;
  attempt = 1;
  created_at = now;
  started_at = none;
  finished_at = none;
  error_code = none;
  error_message = none;
}

abbrev pub point_at : (ℕ → Bool) → ℕ → Text → ℕ → Thread → Thread
point_at is_space r query now x = record x {
  title = retitle is_space query x.title;
  updated_at = now;
  last_run_id = some r;
}

-- What a new run writes: the run, the user's message, the thread and the idempotency key.
unfoldable pub write_run : (ℕ → Bool) → ℕ → ℕ → ℕ → Text → ℕ → ℕ → ℕ → Response → Action Response
unfolding insert_run insert_message insert_key
write_run is_space u t r query request message_id now response = do
  ordinal ← gets (next_ordinal t)
  insert_run (fresh_run r t query now)
  insert_message (record {
    message_id = message_id;
    thread_id = t;
    run_id = r;
    role = user;
    content = query;
    is_partial = false;
    ordinal = ordinal;
    created_at = now;
  })
  modify (update_threads (is_thread t) (point_at is_space r query now))
  insert_key (record {
    user_id = u;
    client_request_id = request;
    operation = Operation.create_run;
    response_json = response;
    created_at = now;
  })
  pure response

-- The guards on the thread and on its running task, in the order of the source.
unfoldable pub admit_run : ℕ → ℕ → Action (Unit {0})
admit_run u t = do
  found ← gets (thread_row t u)
  x ← or_raise found thread_not_found
  raise_if (not (is_active x.status)) thread_archived
  busy ← gets (live_run t)
  refuse_running busy

-- `created` is `response["created_at"]`.
unfoldable pub request_run : (ℕ → Bool) → ℕ → ℕ → ℕ → Text → ℕ → ℕ → ℕ → Response → Action Response
request_run is_space u t r query request message_id created response = do
  known ← gets (user_exists u)
  raise_if (not known) user_not_found
  stored ← gets (stored_response u request Operation.create_run)
  unless_stored stored (do
    admit_run u t
    write_run is_space u t r query request message_id (from_iso created) response)

unfoldable pub create_run : (ℕ → Bool) → ℕ → ℕ → ℕ → Text → ℕ → ℕ → ℕ → Response → Action Response
unfolding request_run
create_run is_space u t r query request message_id created response =
    transaction (request_run is_space u t r query request message_id created response)

abbrev pub is_running : RunStatus → Bool
is_running running = true
is_running _ = false

abbrev pub is_succeeded : RunStatus → Bool
is_succeeded succeeded = true
is_succeeded _ = false

abbrev pub keep_or {ℓ} : {A : Type ℓ} → Option A → Option A → Option A
keep_or none old = old
keep_or (some a) old = some a

abbrev pub mark : RunStatus → Option String → Option Text → ℕ → Run → Run
mark status code message now r = record r {
  status = status;
  started_at = (if is_running status then some now else r.started_at);
  finished_at = (if is_terminal status then some now else r.finished_at);
  error_code = keep_or code r.error_code;
  error_message = keep_or message r.error_message;
}

-- The update is committed before the number of rows is looked at.
unfoldable pub set_run_status :
    ℕ → ℕ → RunStatus → Option String → Option Text → ℕ → Action (Unit {0})
set_run_status t r status code message now = do
  touched ← gets (λ db. count_if (is_run t r) db.runs)
  modify (update_runs (is_run t r) (mark status code message now))
  raise_if (not (touched == 1)) run_not_found

pub record StoreConfig : Type 0 where
  pub memory_run_threshold : ℕ
  pub memory_idle_seconds : ℕ

abbrev pub close_run : RunStatus → Option String → Option Text → ℕ → Run → Run
close_run status code message now r = record r {
  status = status;
  finished_at = some now;
  error_code = code;
  error_message = message;
}

-- One more successful run to consolidate; earlier failures are forgotten.
abbrev pub credit : Consolidation → Consolidation
credit c = record c {
  pending_successful_runs = c.pending_successful_runs + 1;
  attempts = 0;
  last_error_code = none;
  dead_lettered_at = none;
}

abbrev pub schedule : StoreConfig → ℕ → Consolidation → Consolidation
schedule cfg now c = if c.pending_successful_runs == 0 then c else record c {
  due_at = some (
      if leb cfg.memory_run_threshold c.pending_successful_runs
      then now
      else now + cfg.memory_idle_seconds * 1000000);
  updated_at = now;
}

abbrev pub fresh_consolidation : ℕ → ℕ → ℕ → Consolidation
fresh_consolidation t u now = record {
  thread_id = t;
  user_id = u;
  processed_through_ordinal = 0;
  pending_successful_runs = 0;
  due_at = none;
  claimed_at = none;
  claim_token = none;
  attempts = 0;
  last_error_code = none;
  dead_lettered_at = none;
  updated_at = now;
}

unfoldable pub consolidate_later :
    StoreConfig → ℕ → Bool → ℕ → Option Consolidation → Action (Unit {0})
unfolding insert_consolidation
consolidate_later cfg t true now none = do
  found ← gets (λ db. find_first (is_thread t) db.threads)
  x ← or_raise found thread_not_found
  insert_consolidation (schedule cfg now (credit (fresh_consolidation t x.user_id now)))
consolidate_later cfg t true now (some c) =
    modify (update_consolidations (λ x. x.thread_id == t) (λ _. schedule cfg now (credit c)))
consolidate_later cfg t false now none = pure tt
consolidate_later cfg t false now (some c) =
    modify (update_consolidations (λ x. x.thread_id == t) (λ _. schedule cfg now c))

abbrev pub or_null : Text → Option Text
or_null [] = none
or_null (c ∷ cs) = some (c ∷ cs)

-- The arguments of one finish_run call.
pub record Outcome : Type 0 where
  pub status : RunStatus
  pub final_text : Text
  pub result : Option Text
  pub message_id : ℕ
  pub is_partial : Bool
  pub error_code : Option String
  pub error_message : Option Text

abbrev pub answer_row : ℕ → ℕ → Outcome → ℕ → Text → ℕ → Message
answer_row t r o now content ordinal = record {
  message_id = o.message_id;
  thread_id = t;
  run_id = r;
  role = assistant;
  content = content;
  is_partial = o.is_partial;
  ordinal = ordinal;
  created_at = now;
}

unfoldable pub add_answer : ℕ → ℕ → Outcome → ℕ → Option Text → Action (Unit {0})
add_answer t r o now none = pure tt
add_answer t r o now (some content) = do
  ordinal ← gets (next_ordinal t)
  insert_message (answer_row t r o now content ordinal)

unfoldable pub write_outcome : StoreConfig → ℕ → ℕ → Outcome → ℕ → Action (Unit {0})
unfolding insert_result add_answer consolidate_later
write_outcome cfg t r o now = do
  modify (update_runs (is_run t r) (close_run o.status o.error_code o.error_message now))
  insert_result (record {
    run_id = r;
    final_text = or_null o.final_text;
    result_json = o.result;
    completed_at = now;
  })
  add_answer t r o now (or_null o.final_text)
  found ← gets (consolidation_row t)
  consolidate_later cfg t (is_succeeded o.status) now found
  modify (update_threads (is_thread t) (λ x. record x { updated_at = now }))

-- A run that is already terminal is left alone.
unfoldable pub finish_run : StoreConfig → ℕ → ℕ → Outcome → ℕ → Action (Unit {0})
finish_run cfg t r o now = transaction do
  found ← gets (run_row t r)
  x ← or_raise found run_not_found
  if is_terminal x.status then pure tt else write_outcome cfg t r o now

pub record RunView : Type 0 where
  pub run : Run
  pub final_text : Option Text
  pub result : Option Text
  pub thread_status : ThreadStatus
  pub user_id : ℕ

abbrev view : Run → Thread → Option RunResult → RunView
view r x none = record {
  run = r;
  final_text = none;
  result = none;
  thread_status = x.status;
  user_id = x.user_id;
}
view r x (some o) = record {
  run = r;
  final_text = o.final_text;
  result = o.result_json;
  thread_status = x.status;
  user_id = x.user_id;
}

abbrev pub owned_by : Option ℕ → Thread → Bool
owned_by none x = true
owned_by (some u) x = x.user_id == u

-- The run joined with its thread, and with its result where there is one.
unfoldable pub get_run : ℕ → ℕ → Option ℕ → Action RunView
get_run t r owner = do
  found ← gets (run_row t r)
  x ← or_raise found run_not_found
  held ← gets (λ db. find_first (λ y. is_thread t y && owned_by owner y) db.threads)
  y ← or_raise held run_not_found
  o ← gets (λ db. find_first (λ z. z.run_id == r) db.results)
  pure (view x y o)
