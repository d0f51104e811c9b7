-- ===== src/Sessions/Threads.antt =====
-- recover_after_restart, idempotent_response, active_thread and replace_thread of
-- app/database/session_store.py.
use globuy.Prelude.{
  ℕ, Bool, true, false, ◌&&◌, not, Option, none, some, ◌==◌, same_option, find_first, count_if,
}
use globuy.Sessions.Schema.{
  Db, Thread, Run, RunStatus, Consolidation, active, archived, server_restart, new_thread,
  interrupted, is_live, is_active, Operation, create_thread, Response, thread_created, Text, iso,
}
use globuy.Sessions.Action.{
  Action, user_not_found, active_thread_changed, run_cancellation_failed, pure, raise, gets, modify,
  raise_if, transaction, ◌>>=◌, ◌>>◌,
}
use globuy.Sessions.Rows.{
  is_thread, user_exists, stored_response, active_row, live_run, is_occupied, insert_thread,
  insert_key, update_threads, update_runs, update_consolidations, delete_threads,
}
use globuy.Sessions.Title.{new_conversation}

pub record Recovery : Type 0 where
  pub interrupted_runs : ℕ
  pub archived_threads : ℕ
  pub discarded_threads : ℕ

abbrev pub interrupt : ℕ → Text → Run → Run
interrupt now message r = record r {
  status = interrupted;
  finished_at = some now;
  error_code = some "SERVER_RESTART";
  error_message = some message;
}

abbrev pub shelve : ℕ → Thread → Thread
shelve now x = record x {
  status = archived;
  active_slot = none;
  archived_at = some now;
  updated_at = now;
  archive_reason = some server_restart;
}

-- `message` is the text of the interruption.
unfoldable pub recover_after_restart : ℕ → Text → Action Recovery
recover_after_restart now message = transaction do
  stopped ← gets (λ db. count_if (λ r. is_live r.status) db.runs)
  modify (update_runs (λ r. is_live r.status) (interrupt now message))
  shelved ← gets (λ db. count_if (λ x. is_active x.status && is_occupied x.thread_id db) db.threads)
  modify
      λ db. update_threads (λ x. is_active x.status && is_occupied x.thread_id db) (shelve now) db
  dropped ←
      gets λ db. count_if (λ x. is_active x.status && not (is_occupied x.thread_id db)) db.threads
  modify (λ db. delete_threads (λ x. is_active x.status && not (is_occupied x.thread_id db)) db)
  pure (record {
    interrupted_runs = stopped;
    archived_threads = shelved;
    discarded_threads = dropped;
  })

unfoldable pub idempotent_response : ℕ → ℕ → Operation → Action (Option Response)
idempotent_response user_id request op = gets (stored_response user_id request op)

-- The row, the number of its messages and the status of its last run.
unfoldable pub last_run_status : Option ℕ → Db → Option RunStatus
last_run_status none db = none
last_run_status (some r) db = elim (find_first (λ (x : Run). x.run_id == r) db.runs) [
  | none ↦ none
  | some x ↦ some x.status
]

unfoldable pub active_thread : ℕ → Action (Option (Thread × ℕ × Option RunStatus))
active_thread u db = elim (active_row u db) [
  | none ↦ pure none db
  | some x ↦
      pure
        (some (
          x,
          count_if (λ m. m.thread_id == x.thread_id) db.messages,
          last_run_status x.last_run_id db,
        ))
        db
]

-- The two checks of the caller's view of the active thread.
abbrev pub check_current : Option Thread → Option ℕ → Action (Unit {0})
check_current none none = pure tt
check_current none (some t) = raise (active_thread_changed none)
check_current (some x) current =
    raise_if (not (same_option (some x.thread_id) current))
      (active_thread_changed (some x.thread_id))

abbrev pub refuse_live : Option Run → Action (Unit {0})
refuse_live none = pure tt
refuse_live (some r) = raise (run_cancellation_failed r.run_id r.status)

abbrev pub archive : ℕ → Thread → Thread
archive now x = record x {
  status = archived;
  active_slot = none;
  archived_at = some now;
  updated_at = now;
  archive_reason = some new_thread;
}

-- An archived thread's pending runs are consolidated at once.
abbrev pub rush : ℕ → Consolidation → Consolidation
rush now c = record c {
  due_at = some now;
  attempts = 0;
  last_error_code = none;
  dead_lettered_at = none;
  claimed_at = none;
  claim_token = none;
  updated_at = now;
}

unfoldable pub archive_thread : ℕ → ℕ → Action (Unit {0})
archive_thread t now = do
  modify (update_threads (is_thread t) (archive now))
  modify (
      update_consolidations (λ c. c.thread_id == t && not (c.pending_successful_runs == 0))
        (rush now))

-- A thread that holds something is archived, an empty one is deleted. The result is what the
-- response says of it.
unfoldable pub put_away : Bool → Thread → ℕ → Action (Option ℕ × Option ℕ)
put_away true x now = do archive_thread x.thread_id now; pure (some x.thread_id, x.last_run_id)
put_away false x now = do modify (delete_threads (is_thread x.thread_id)); pure (none, none)

unfoldable pub retire : Option Thread → ℕ → Action (Option ℕ × Option ℕ)
retire none now = pure (none, none)
retire (some x) now = do
  running ← gets (live_run x.thread_id)
  refuse_live running
  occupied ← gets (is_occupied x.thread_id)
  put_away occupied x now

abbrev pub fresh_thread : ℕ → ℕ → ℕ → Thread
fresh_thread t u now = record {
  thread_id = t;
  user_id = u;
  title = new_conversation;
  status = active;
  active_slot = some 1;
  created_at = now;
  updated_at = now;
  archived_at = none;
  archive_reason = none;
  last_run_id = none;
}

unfoldable pub open_thread : ℕ → ℕ → ℕ → ℕ → Option ℕ × Option ℕ → Action Response
unfolding insert_thread insert_key iso
open_thread u request t now (old_thread, old_run) = do
  insert_thread (fresh_thread t u now)
  let response = thread_created t (iso now) old_thread old_run
  insert_key (record {
    user_id = u;
    client_request_id = request;
    operation = create_thread;
    response_json = response;
    created_at = now;
  })
  pure response

unfoldable pub replace_active : ℕ → Option ℕ → ℕ → ℕ → ℕ → Action Response
replace_active u current request t now = do
  x ← gets (active_row u)
  check_current x current
  retired ← retire x now
  open_thread u request t now retired

abbrev pub unless_stored : Option Response → Action Response → Action Response
unless_stored none m = m
unless_stored (some r) m = pure r

unfoldable pub request_thread : ℕ → Option ℕ → ℕ → ℕ → ℕ → Action Response
request_thread u current request t now = do
  known ← gets (user_exists u)
  raise_if (not known) user_not_found
  stored ← gets (stored_response u request create_thread)
  unless_stored stored (replace_active u current request t now)

unfoldable pub replace_thread : ℕ → Option ℕ → ℕ → ℕ → ℕ → Action Response
unfolding request_thread
replace_thread u current request t now = transaction (request_thread u current request t now)
