-- ===== src/Sessions/Schema.antt =====
-- app/database/models.py, the tables of sessions and runs, and their statuses in app/api/storage.py.
-- Identifiers are only compared, so they are numbers. A text is its list of code points. A time is
-- a count of microseconds, the precision of UTC_DATETIME.
use Prim.Native.String.{String}
use globuy.Prelude.{ℕ, ◌/◌, ◌*◌, Bool, true, false, Option, List}

abbrev pub Text : Type 0
Text = List ℕ

pub data RunStatus : Type 0 where
  starting running cancelling succeeded cancelled failed interrupted : RunStatus

-- TERMINAL_RUN_STATUSES
unfoldable pub is_terminal : RunStatus → Bool
is_terminal succeeded = true
is_terminal cancelled = true
is_terminal failed = true
is_terminal interrupted = true
is_terminal _ = false

-- ACTIVE_RUN_STATUSES
unfoldable pub is_live : RunStatus → Bool
is_live starting = true
is_live running = true
is_live cancelling = true
is_live _ = false

pub data ThreadStatus : Type 0 where
  active archived : ThreadStatus

abbrev pub is_active : ThreadStatus → Bool
is_active active = true
is_active archived = false

pub data ArchiveReason : Type 0 where
  server_restart new_thread : ArchiveReason

pub record Thread : Type 0 where
  pub thread_id : ℕ
  pub user_id : ℕ
  pub title : Text
  pub status : ThreadStatus
  pub active_slot : Option ℕ
  pub created_at : ℕ
  pub updated_at : ℕ
  pub archived_at : Option ℕ
  pub archive_reason : Option ArchiveReason
  pub last_run_id : Option ℕ

pub record Run : Type 0 where
  pub run_id : ℕ
  pub thread_id : ℕ
  pub status : RunStatus
  pub query : Text
  pub attempt : ℕ
  pub created_at : ℕ
  pub started_at : Option ℕ
  pub finished_at : Option ℕ
  pub error_code : Option String
  pub error_message : Option Text

-- `result_json` is a JSON document that the store passes on unread.
pub record RunResult : Type 0 where
  pub run_id : ℕ
  pub final_text : Option Text
  pub result_json : Option Text
  pub completed_at : ℕ

pub data Role : Type 0 where
  user assistant : Role

pub record Message : Type 0 where
  pub message_id : ℕ
  pub thread_id : ℕ
  pub run_id : ℕ
  pub role : Role
  pub content : Text
  pub is_partial : Bool
  pub ordinal : ℕ
  pub created_at : ℕ

pub record Consolidation : Type 0 where
  pub thread_id : ℕ
  pub user_id : ℕ
  pub processed_through_ordinal : ℕ
  pub pending_successful_runs : ℕ
  pub due_at : Option ℕ
  pub claimed_at : Option ℕ
  pub claim_token : Option ℕ
  pub attempts : ℕ
  pub last_error_code : Option Text
  pub dead_lettered_at : Option ℕ
  pub updated_at : ℕ

pub data Operation : Type 0 where
  create_thread create_run : Operation

abbrev pub same_operation : Operation → Operation → Bool
same_operation create_thread create_thread = true
same_operation create_run create_run = true
same_operation _ _ = false

-- The two response bodies that are stored under an idempotency key. Times in them are
-- milliseconds. The URLs of a run's body are made of its two identifiers.
pub data Response : Type 0 where
  thread_created :
      (thread_id created_at : ℕ) (archived_thread_id archived_run_id : Option ℕ) → Response
  run_started : (thread_id run_id : ℕ) (replaced_run_id : Option ℕ) (created_at : ℕ) → Response

pub record IdempotencyKey : Type 0 where
  pub user_id : ℕ
  pub client_request_id : ℕ
  pub operation : Operation
  pub response_json : Response
  pub created_at : ℕ

-- The rows of every table, newest first. Of the users only the keys are read here.
pub record Db : Type 0 where
  pub users : List ℕ
  pub threads : List Thread
  pub runs : List Run
  pub results : List RunResult
  pub messages : List Message
  pub consolidations : List Consolidation
  pub keys : List IdempotencyKey

-- `_iso` keeps milliseconds, and `datetime.fromisoformat` reads them back.
unfoldable pub iso : ℕ → ℕ
iso t = t / 1000

unfoldable pub from_iso : ℕ → ℕ
from_iso m = m * 1000
