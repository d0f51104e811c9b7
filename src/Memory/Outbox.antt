-- ===== src/Memory/Outbox.antt =====
-- app/memory/outbox_worker.py, class MemoryOutboxWorker, over the tables OutboxEvent, MemoryEntry
-- and MemoryEmbedding of app/database/models.py. Each method is one transaction; the clock and
-- the fresh tokens are arguments. A memory's row is what the worker reads of it.
use globuy.Prelude.{
  ℕ, zero, suc, ◌+◌, ◌*◌, Bool, true, false, ◌&&◌, ◌||◌, not, Option, none, some, List, [], ◌∷◌,
  ◌==◌, ltb, leb, is_some, any, find_first, select_where, update_where, delete_where, take,
  if◌then◌else◌,
}
use globuy.Sessions.Schema.{Text}
use globuy.Memory.Consolidation.{is_free, holds}

pub data AggregateType : Type 0 where
  memory other : AggregateType

abbrev pub is_memory : AggregateType → Bool
is_memory memory = true
is_memory other = false

-- `deleted` is "memory.deleted"; the others only lead to a new projection.
pub data OutboxEventType : Type 0 where
  added updated deleted : OutboxEventType

pub data ErrorCode : Type 0 where
  pgvector_projection_failed : ErrorCode

pub record OutboxEvent : Type 0 where
  pub event_id : ℕ
  pub aggregate_type : AggregateType
  pub aggregate_id : ℕ
  pub event_type : OutboxEventType
  pub created_at : ℕ
  pub published_at : Option ℕ
  pub attempts : ℕ
  pub last_error_code : Option ErrorCode
  pub available_at : Option ℕ
  pub claimed_at : Option ℕ
  pub claim_token : Option ℕ
  pub dead_lettered_at : Option ℕ

pub record Entry : Type 0 where
  pub memory_id : ℕ
  pub memory : Text

-- The encoder's metadata, `embedding_model` to `normalized`, is one value.
pub record Embedding : Type 0 where
  pub memory_id : ℕ
  pub embedding : List ℕ
  pub metadata : ℕ
  pub content_hash : ℕ
  pub embedded_at : ℕ

pub record Tables : Type 0 where
  pub events : List OutboxEvent
  pub entries : List Entry
  pub embeddings : List Embedding

-- The settings, times in microseconds.
pub record OutboxConfig : Type 0 where
  pub lease : ℕ
  pub max_attempts : ℕ
  pub batch_size : ℕ

abbrev pub is_event : ℕ → OutboxEvent → Bool
is_event e x = x.event_id == e

unfoldable pub event_row : ℕ → Tables → Option OutboxEvent
event_row e db = find_first (is_event e) db.events

unfoldable pub entry_row : ℕ → Tables → Option Entry
entry_row m db = find_first (λ x. x.memory_id == m) db.entries

unfoldable pub embedding_row : ℕ → Tables → Option Embedding
embedding_row m db = find_first (λ x. x.memory_id == m) db.embeddings

abbrev pub update_events : (OutboxEvent → Bool) → (OutboxEvent → OutboxEvent) → Tables → Tables
update_events p f db = record db { events = update_where p f db.events }

abbrev pub is_available : ℕ → Option ℕ → Bool
is_available now none = true
is_available now (some at) = leb at now

abbrev pub is_waiting : OutboxConfig → ℕ → OutboxEvent → Bool
is_waiting cfg now x =
    is_memory x.aggregate_type
    && not (is_some x.published_at)
    && not (is_some x.dead_lettered_at)
    && is_available now x.available_at
    && is_free cfg.lease now x.claimed_at

-- ORDER BY created_at
abbrev pub insert_event : OutboxEvent → List OutboxEvent → List OutboxEvent
insert_event x [] = x ∷ []
insert_event x (y ∷ ys) =
    if leb x.created_at y.created_at then x ∷ y ∷ ys else y ∷ insert_event x ys

abbrev pub by_creation : List OutboxEvent → List OutboxEvent
by_creation [] = []
by_creation (x ∷ xs) = insert_event x (by_creation xs)

abbrev pub hold_event : ℕ → ℕ → OutboxEvent → OutboxEvent
hold_event now token x = record x { claimed_at = some now; claim_token = some token }

-- Each event takes the next fresh token.
abbrev pub claim_each : ℕ → ℕ → List OutboxEvent → Tables → List (ℕ × ℕ) × Tables
claim_each now token [] db = ([], db)
claim_each now token (x ∷ xs) db =
    let (rest, after) =
      claim_each now (suc token) xs
        (update_events (is_event x.event_id) (hold_event now token) db) in
    ((x.event_id, token) ∷ rest, after)

unfoldable pub claim_events : OutboxConfig → ℕ → ℕ → Tables → List (ℕ × ℕ) × Tables
claim_events cfg now token db =
    claim_each now token
      (take cfg.batch_size (by_creation (select_where (is_waiting cfg now) db.events))) db

abbrev pub close_event : ℕ → OutboxEvent → OutboxEvent
close_event now x = record x {
  published_at = some now;
  attempts = x.attempts + 1;
  last_error_code = none;
  available_at = none;
  claimed_at = none;
  claim_token = none;
}

abbrev pub is_deleted : OutboxEventType → Bool
is_deleted deleted = true
is_deleted _ = false

abbrev pub is_embedding_of : ℕ → Embedding → Bool
is_embedding_of m x = x.memory_id == m

-- The encoder and the hash are libraries: an encoder that raises returns none.
module _ (encode : Text → Option (List ℕ)) (metadata : ℕ) (memory_hash : Text → ℕ) where
  abbrev pub projection : Entry → List ℕ → ℕ → Embedding
  projection x vector now = record {
    memory_id = x.memory_id;
    embedding = vector;
    metadata = metadata;
    content_hash = memory_hash x.memory;
    embedded_at = now;
  }

  -- The row of a memory is inserted or overwritten.
  abbrev pub put_embedding : Embedding → Tables → Tables
  put_embedding p db =
      if any (is_embedding_of p.memory_id) db.embeddings
      then record db {
        embeddings = update_where (is_embedding_of p.memory_id) (λ _. p) db.embeddings;
      }
      else record db { embeddings = p ∷ db.embeddings }

  abbrev pub drop_embedding : ℕ → Tables → Tables
  drop_embedding m db = record db { embeddings = delete_where (is_embedding_of m) db.embeddings }

  abbrev pub store_vector : Entry → Option (List ℕ) → ℕ → Tables → Option Tables
  store_vector x none now db = none
  store_vector x (some vector) now db = some (put_embedding (projection x vector now) db)

  -- `none` is an exception of the encoder.
  abbrev pub project : Bool → ℕ → Option Entry → ℕ → Tables → Option Tables
  project gone m none now db = some (drop_embedding m db)
  project true m (some x) now db = some (drop_embedding m db)
  project false m (some x) now db = store_vector x (encode x.memory) now db

  abbrev pub mark_published : ℕ → ℕ → Option Tables → Option Tables
  mark_published e now none = none
  mark_published e now (some db) = some (update_events (is_event e) (close_event now) db)

  abbrev pub publish_row : ℕ → ℕ → Option OutboxEvent → ℕ → Tables → Option Tables
  publish_row e token none now db = some db
  publish_row e token (some x) now db =
      if is_some x.published_at || not (holds token x.claim_token)
      then some db
      else mark_published e now
          (project (is_deleted x.event_type) x.aggregate_id (entry_row x.aggregate_id db) now db)

  -- One step: the event's row is locked for the whole of it. The memory's own row is not, and a change
  -- of it while the encoder works is left out.
  unfoldable pub publish_event : ℕ → ℕ → ℕ → Tables → Option Tables
  publish_event e token now db = publish_row e token (event_row e db) now db

-- _RETRY_SECONDS
abbrev pub outbox_retry_seconds : List ℕ
outbox_retry_seconds = 5 ∷ 10 ∷ 20 ∷ 40 ∷ 80 ∷ 160 ∷ 320 ∷ 600 ∷ []

-- The n-th number, the last one where n is past the end.
unfoldable pub clamp_get : ℕ → ℕ → List ℕ → ℕ
clamp_get n last [] = last
clamp_get zero last (d ∷ ds) = d
clamp_get (suc n) last (d ∷ ds) = clamp_get n d ds

abbrev pub retry_event : OutboxConfig → ℕ → OutboxEvent → OutboxEvent
retry_event cfg now x = record x {
  attempts = x.attempts + 1;
  last_error_code = some pgvector_projection_failed;
  claimed_at = none;
  claim_token = none;
  dead_lettered_at =
      (if ltb cfg.max_attempts (x.attempts + 1) then some now else x.dead_lettered_at);
  available_at =
      (if ltb cfg.max_attempts (x.attempts + 1)
        then none
        else some (now + clamp_get x.attempts 0 outbox_retry_seconds * 1000000));
}

abbrev pub fail_event_row : OutboxConfig → ℕ → ℕ → ℕ → Option OutboxEvent → Tables → Tables
fail_event_row cfg e token now none db = db
fail_event_row cfg e token now (some x) db =
    if holds token x.claim_token then update_events (is_event e) (retry_event cfg now) db else db

-- The `except` branch of run_once.
unfoldable pub fail_event : OutboxConfig → ℕ → ℕ → ℕ → Tables → Tables
fail_event cfg e token now db = fail_event_row cfg e token now (event_row e db) db

abbrev pub requeue_event_row : ℕ → ℕ → Option OutboxEvent → Tables → Bool × Tables
requeue_event_row e now none db = (false, db)
requeue_event_row e now (some x) db =
    if not (is_memory x.aggregate_type) || is_some x.published_at then (false, db) else (
      true,
      update_events (is_event e)
          (λ y. record y {
            attempts = 0;
            last_error_code = none;
            available_at = some now;
            claimed_at = none;
            claim_token = none;
            dead_lettered_at = none;
          })
          db,
    )

unfoldable pub requeue_event : ℕ → ℕ → Tables → Bool × Tables
requeue_event e now db = requeue_event_row e now (event_row e db) db
