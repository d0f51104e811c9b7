-- ===== src/Memory/Together.antt =====
-- app/memory/service.py and app/memory/outbox_worker.py on one database: the service writes events
-- "memory.upserted", the worker projects the memories that they name, and the embedding of a memory is
-- deleted with its row (MemoryEmbedding of app/database/models.py). The fresh identifier of an event is
-- the number of those before it.
use globuy.Prelude.{
  ℕ, ◌+◌, Bool, not, Option, none, some, List, [], ◌∷◌, ◌++◌, any, map, delete_where,
}
use globuy.Sessions.Schema.{Text}
use globuy.Memory.Entries.{MemoryEntry, MemoryDb, Upsert, TextLibraries, has_id}
use globuy.Memory.Outbox.{
  OutboxEvent, memory, updated, Entry, Embedding, Tables, OutboxConfig, claim_events, publish_event,
  fail_event, requeue_event,
}
use globuy.Memory.Calls.{MemoryCall, call_memory}

pub record MemoryWorld : Type 0 where
  pub memories : MemoryDb
  pub events : List OutboxEvent
  pub embeddings : List Embedding
  pub next_event : ℕ

abbrev pub new_event : ℕ → Upsert → OutboxEvent
new_event id u = record {
  event_id = id;
  aggregate_type = memory;
  aggregate_id = u.aggregate_id;
  event_type = updated;
  created_at = u.created_at;
  published_at = none;
  attempts = 0;
  last_error_code = none;
  available_at = none;
  claimed_at = none;
  claim_token = none;
  dead_lettered_at = none;
}

abbrev pub new_events : ℕ → List Upsert → List OutboxEvent
new_events id [] = []
new_events id (u ∷ us) = new_event id u ∷ new_events (id + 1) us

abbrev pub count_events : ℕ → List Upsert → ℕ
count_events id [] = id
count_events id (u ∷ us) = count_events (id + 1) us

-- What the service sees of the outbox: nothing, it only adds.
abbrev pub without_outbox : MemoryDb → MemoryDb
without_outbox db = record db { outbox = [] }

abbrev pub is_orphan : List MemoryEntry → Embedding → Bool
is_orphan entries p = not (any (has_id p.memory_id) entries)

abbrev pub after_call : MemoryWorld → MemoryDb → MemoryWorld
after_call w after = record {
  memories = without_outbox after;
  events = w.events ++ new_events w.next_event after.outbox;
  embeddings = delete_where (is_orphan after.entries) w.embeddings;
  next_event = count_events w.next_event after.outbox;
}

abbrev pub as_entry : MemoryEntry → Entry
as_entry x = record { memory_id = x.memory_id; memory = x.memory }

abbrev pub tables_of : MemoryWorld → Tables
tables_of w = record {
  events = w.events;
  entries = map as_entry w.memories.entries;
  embeddings = w.embeddings;
}

-- The worker changes its events and the embeddings.
abbrev pub with_tables : MemoryWorld → Tables → MemoryWorld
with_tables w t = record w { events = t.events; embeddings = t.embeddings }

abbrev pub unless_raised : MemoryWorld → Option Tables → MemoryWorld
unless_raised w none = w
unless_raised w (some t) = with_tables w t

-- A call of the service, or one transaction of the worker.
pub data MemoryMove : Type 0 where
  serve : (c : MemoryCall) → MemoryMove
  claim_move : (now token : ℕ) → MemoryMove
  publish_move : (event token now : ℕ) → MemoryMove
  fail_move : (event token now : ℕ) → MemoryMove
  requeue_move : (event now : ℕ) → MemoryMove

module _ (lib : TextLibraries) (encode : Text → Option (List ℕ)) (metadata : ℕ) (hash : Text → ℕ)
    (cfg : OutboxConfig) where
  unfoldable pub move : MemoryMove → MemoryWorld → MemoryWorld
  unfolding call_memory claim_events publish_event fail_event requeue_event
  move (serve c) w = after_call w (call_memory lib c (without_outbox w.memories))
  move (claim_move now token) w = with_tables w (claim_events cfg now token (tables_of w)).1
  move (publish_move e token now) w =
      unless_raised w (publish_event encode metadata hash e token now (tables_of w))
  move (fail_move e token now) w = with_tables w (fail_event cfg e token now (tables_of w))
  move (requeue_move e now) w = with_tables w (requeue_event e now (tables_of w)).1

  unfoldable pub moves : List MemoryMove → MemoryWorld → MemoryWorld
  unfolding move
  moves [] w = w
  moves (m ∷ ms) w = moves ms (move m w)
