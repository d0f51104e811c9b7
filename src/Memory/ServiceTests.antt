-- ===== src/Memory/ServiceTests.antt =====
-- Tests of the memory service and of the manager in front of it, and the theorems at concrete inputs.
use globuy.Prelude.{
  ℕ, ◌+◌, ◌≡◌, refl, false, none, some, List, [], ◌∷◌, any, delete_where, map, arith,
}
use globuy.Sessions.Schema.{Text}
use globuy.Memory.Entries.{
  MemoryEntry, MemoryDb, TextLibraries, MemoryAction, Origin, by_user, by_agent, updates, deletes,
  keeps, done, refused, memory_duplicate, add_memory, update_memory, delete_memory, has_id,
  has_content, memory_hash, normalize_memory,
}
use globuy.Memory.Actions.{revised, confirmed, retired, change, record_history, upsert}
use globuy.Memory.Service.{apply_actions, update, list_memories}
use globuy.Memory.Manager.{ExtractedMemory, ProposedAction, Found, Policy, process}
use globuy.Memory.Guard.{Unique}
use globuy.Memory.Batch.{InOrder}
use globuy.Memory.Calls.{
  MemoryCall, create_call, update_call, delete_call, batch_call, call_memories, calls_keep_order,
}
use globuy.Memory.Owners.{batch_keeps_others}
use globuy.Memory.Update.{update_outcome}
use globuy.Memory.Readded.{readded_memory_is_lost}
use globuy.Memory.Refusals.{is_target_error}
use globuy.Memory.Obeyed.{process_targets}

-- Texts of one word, and no keywords.
abbrev pub plain : TextLibraries
plain = record {
  words = λ t. t ∷ [];
  casefold = λ t. t;
  digest = λ t. t;
  extract_keywords = λ t. [];
}

abbrev pub tea : Text
tea = 116 ∷ 101 ∷ 97 ∷ []

abbrev pub jam : Text
jam = 106 ∷ 97 ∷ 109 ∷ []

abbrev entry : ℕ → ℕ → Text → MemoryEntry
entry m u t = record {
  memory_id = m;
  user_id = u;
  memory = t;
  content_hash = t;
  keywords = [];
  source = by_user;
  source_thread_id = none;
  source_run_id = none;
  version = 1;
  created_at = 5;
  updated_at = 5;
  last_confirmed_at = 5;
}

abbrev pub at : ℕ → ℕ → Origin
at u now = record {
  user_id = u;
  source = by_agent;
  source_thread_id = some 7;
  source_run_id = some 8;
  now = now;
}

-- Two memories of user 1 and one of user 2.
abbrev pub three : MemoryDb
three = record {
  entries = entry 10 1 tea ∷ entry 11 1 jam ∷ entry 20 2 tea ∷ [];
  history = [];
  outbox = upsert 5 (entry 10 1 tea) ∷ upsert 5 (entry 11 1 jam) ∷ upsert 5 (entry 20 2 tea) ∷ [];
}

pub three-InOrder : InOrder three
three-InOrder = record { unique = λ m. ground arith; no_conflict = refl; announced = refl }

-- A batch of user 1 that deletes, changes and adds.
abbrev mixed : List MemoryAction
mixed =
    delete_memory (some 10) ∷ update_memory (some 11) (103 ∷ []) [] ∷ add_memory (110 ∷ []) [] ∷ []

-- The text that was free before the batch is added, and the deletion is not seen before the flush.
mixed_list :
    map MemoryEntry.memory
      (list_memories 1 (apply_actions plain (at 1 9) (λ n. 30 + n) mixed three).1)
    ≡ (103 ∷ []) ∷ (110 ∷ []) ∷ []
unfolding apply_actions list_memories
mixed_list = refl

batch_keeps_others_example :
    (list_memories 2 (apply_actions plain (at 1 9) (λ n. 30 + n) mixed three).1
      ≡ list_memories 2 three)
    × Unique (apply_actions plain (at 1 9) (λ n. 30 + n) mixed three).1.entries
batch_keeps_others_example =
    batch_keeps_others plain (at 1 9) (λ n. 30 + n) mixed three 2 three-InOrder.unique refl

abbrev calls : List MemoryCall
calls =
    batch_call (at 1 9) (λ n. 30 + n) mixed
    ∷ create_call (at 2 10) 40 jam
    ∷ update_call (at 2 11) 20 jam
    ∷ delete_call (at 2 12) 20
    ∷ []

calls_keep_order_example : InOrder (call_memories plain calls three)
calls_keep_order_example = calls_keep_order plain calls three three-InOrder

update_outcome_example : update plain (at 1 9) 10 jam three ≡ (refused memory_duplicate, three)
unfolding memory_hash normalize_memory revised
update_outcome_example =
    update_outcome plain (at 1 9) 10 jam three (entry 10 1 tea) three-InOrder refl

readded_memory_is_lost_example :
    (apply_actions plain
        (at 1 9)
        (λ n. 30 + n)
        (delete_memory (some 10) ∷ add_memory tea [] ∷ [])
        three
      ≡ (
        done (
            change deletes tea (retired plain (at 1 9) (entry 10 1 tea))
            ∷ change keeps tea (confirmed 9 (retired plain (at 1 9) (entry 10 1 tea)))
            ∷ []),
        record {
          entries = delete_where (has_id 10) three.entries;
          history =
              record_history 9 deletes (some tea) none (retired plain (at 1 9) (entry 10 1 tea))
              ∷ [];
          outbox = three.outbox;
        },
      ))
    × (any
          (has_content 1 (memory_hash plain (normalize_memory plain tea)))
          (delete_where (has_id 10) three.entries)
        ≡ false)
unfolding normalize_memory memory_hash
readded_memory_is_lost_example =
    readded_memory_is_lost plain (at 1 9) (λ n. 30 + n) tea [] three (entry 10 1 tea) three-InOrder
      refl refl

-- The search finds the user's two memories, and the model wants one to say what the other says.
abbrev lenient : Policy
lenient = record { strip = λ t. t; matches_pattern = λ t. false }

abbrev search : Text → List Found
search t = record { memory_id = 10; memory = tea } ∷ record { memory_id = 11; memory = jam } ∷ []

abbrev decide : List ExtractedMemory → List Found → List ProposedAction
decide facts existing = record { event = updates; fact_index = 4; memory = jam; id = some 0 } ∷ []

abbrev facts : List ExtractedMemory
facts = record { fact_index = 4; memory = jam; keywords = tea ∷ [] } ∷ []

process_targets_example : is_target_error memory_duplicate ≡ false
unfolding process
process_targets_example =
    process_targets lenient search decide plain (at 1 9) (λ n. 30 + n) three (λ t. refl) facts
      memory_duplicate refl
