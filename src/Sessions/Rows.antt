-- ===== src/Sessions/Rows.antt =====
-- The queries and the writes that app/database/session_store.py makes, with the key, uniqueness and
-- foreign-key checks that app/database/models.py declares.
use globuy.Prelude.{
  ℕ, ◌+◌, max, Bool, ◌&&◌, ◌||◌, not, Option, none, some, List, [], ◌∷◌, ◌==◌, same_option, is_some,
  find_first, any, update_where, delete_where, if◌then◌else◌,
}
use globuy.Sessions.Schema.{
  Db, Thread, Run, RunResult, Message, Consolidation, IdempotencyKey, Operation, Response, is_live,
  is_active, same_operation,
}
use globuy.Sessions.Action.{Action, integrity_error, raise_if, modify, gets, ◌>>=◌, ◌>>◌}

-- Tests on rows.
abbrev pub is_thread : ℕ → Thread → Bool
is_thread t x = x.thread_id == t

abbrev pub is_active_of : ℕ → Thread → Bool
is_active_of u x = x.user_id == u && is_active x.status

abbrev pub is_run : ℕ → ℕ → Run → Bool
is_run t r x = x.thread_id == t && x.run_id == r

abbrev pub is_live_run_of : ℕ → Run → Bool
is_live_run_of t x = x.thread_id == t && is_live x.status

abbrev pub is_key : ℕ → ℕ → Operation → IdempotencyKey → Bool
is_key u c o x = x.user_id == u && x.client_request_id == c && same_operation x.operation o

abbrev pub is_message_at : ℕ → ℕ → Message → Bool
is_message_at t o x = x.thread_id == t && x.ordinal == o

-- Queries.
unfoldable pub user_exists : ℕ → Db → Bool
user_exists u db = any (λ x. x == u) db.users

abbrev response_of : Option IdempotencyKey → Option Response
response_of none = none
response_of (some k) = some k.response_json

unfoldable pub stored_response : ℕ → ℕ → Operation → Db → Option Response
stored_response u c o db = response_of (find_first (is_key u c o) db.keys)

unfoldable pub active_row : ℕ → Db → Option Thread
active_row u db = find_first (is_active_of u) db.threads

unfoldable pub thread_row : ℕ → ℕ → Db → Option Thread
thread_row t u db = find_first (λ x. is_thread t x && x.user_id == u) db.threads

unfoldable pub live_run : ℕ → Db → Option Run
live_run t db = find_first (is_live_run_of t) db.runs

unfoldable pub run_row : ℕ → ℕ → Db → Option Run
run_row t r db = find_first (is_run t r) db.runs

unfoldable pub consolidation_row : ℕ → Db → Option Consolidation
consolidation_row t db = find_first (λ x. x.thread_id == t) db.consolidations

-- Has the thread a run or a message?
unfoldable pub is_occupied : ℕ → Db → Bool
is_occupied t db = any (λ r. r.thread_id == t) db.runs || any (λ m. m.thread_id == t) db.messages

-- COALESCE(MAX(ordinal), 0) of a thread's messages.
unfoldable pub max_ordinal : ℕ → List Message → ℕ
max_ordinal t [] = 0
max_ordinal t (m ∷ ms) =
    let rest = max_ordinal t ms in if m.thread_id == t then max m.ordinal rest else rest

unfoldable pub next_ordinal : ℕ → Db → ℕ
next_ordinal t db = max_ordinal t db.messages + 1

-- INSERT, refused where a key is taken or a referenced row is missing.
unfoldable pub insert_thread : Thread → Action (Unit {0})
unfolding user_exists
insert_thread x = do
  taken ← gets (λ db. any (is_thread x.thread_id) db.threads)
  raise_if taken integrity_error
  second ← gets λ db.
      is_some x.active_slot
      && any (λ y. y.user_id == x.user_id && same_option y.active_slot x.active_slot) db.threads
  raise_if second integrity_error
  owned ← gets (user_exists x.user_id)
  raise_if (not owned) integrity_error
  modify (λ db. record db { threads = x ∷ db.threads })

unfoldable pub insert_run : Run → Action (Unit {0})
insert_run x = do
  taken ← gets (λ db. any (λ y. y.run_id == x.run_id) db.runs)
  raise_if taken integrity_error
  held ← gets (λ db. any (is_thread x.thread_id) db.threads)
  raise_if (not held) integrity_error
  modify (λ db. record db { runs = x ∷ db.runs })

unfoldable pub insert_message : Message → Action (Unit {0})
insert_message x = do
  taken ← gets (λ db. any (λ y. y.message_id == x.message_id) db.messages)
  raise_if taken integrity_error
  second ← gets (λ db. any (is_message_at x.thread_id x.ordinal) db.messages)
  raise_if second integrity_error
  held ←
      gets (λ db. any (λ y. y.run_id == x.run_id) db.runs && any (is_thread x.thread_id) db.threads)
  raise_if (not held) integrity_error
  modify (λ db. record db { messages = x ∷ db.messages })

unfoldable pub insert_result : RunResult → Action (Unit {0})
insert_result x = do
  taken ← gets (λ db. any (λ y. y.run_id == x.run_id) db.results)
  raise_if taken integrity_error
  held ← gets (λ db. any (λ y. y.run_id == x.run_id) db.runs)
  raise_if (not held) integrity_error
  modify (λ db. record db { results = x ∷ db.results })

unfoldable pub insert_consolidation : Consolidation → Action (Unit {0})
unfolding user_exists
insert_consolidation x = do
  taken ← gets (λ db. any (λ y. y.thread_id == x.thread_id) db.consolidations)
  raise_if taken integrity_error
  held ← gets (λ db. any (is_thread x.thread_id) db.threads && user_exists x.user_id db)
  raise_if (not held) integrity_error
  modify (λ db. record db { consolidations = x ∷ db.consolidations })

unfoldable pub insert_key : IdempotencyKey → Action (Unit {0})
unfolding user_exists
insert_key x = do
  taken ← gets (λ db. any (is_key x.user_id x.client_request_id x.operation) db.keys)
  raise_if taken integrity_error
  owned ← gets (user_exists x.user_id)
  raise_if (not owned) integrity_error
  modify (λ db. record db { keys = x ∷ db.keys })

-- UPDATE … WHERE.
abbrev pub update_threads : (Thread → Bool) → (Thread → Thread) → Db → Db
update_threads p f db = record db { threads = update_where p f db.threads }

abbrev pub update_runs : (Run → Bool) → (Run → Run) → Db → Db
update_runs p f db = record db { runs = update_where p f db.runs }

abbrev pub update_consolidations :
    (Consolidation → Bool) → (Consolidation → Consolidation) → Db → Db
update_consolidations p f db = record db { consolidations = update_where p f db.consolidations }

-- DELETE of threads: ON DELETE CASCADE takes the rows that refer to them along.
unfoldable pub delete_threads : (Thread → Bool) → Db → Db
delete_threads p db =
    let doomed : ℕ → Bool = λ t. any (λ x. x.thread_id == t && p x) db.threads in
    record db {
      threads = delete_where p db.threads;
      runs = delete_where (λ r. doomed r.thread_id) db.runs;
      results =
          delete_where (λ x. any (λ r. r.run_id == x.run_id && doomed r.thread_id) db.runs)
            db.results;
      messages =
          delete_where
            (λ m.
              doomed m.thread_id || any (λ r. r.run_id == m.run_id && doomed r.thread_id) db.runs)
            db.messages;
      consolidations = delete_where (λ c. doomed c.thread_id) db.consolidations;
    }
