-- ===== src/Memory/Entries.antt =====
-- app/memory/service.py: the tables, the actions and the treatment of text. The snapshots of rows that
-- are returned or announced are the rows.
use globuy.Prelude.{
  ℕ, Bool, true, false, ◌&&◌, ◌||◌, Option, some, List, [], ◌∷◌, ◌++◌, ◌==◌, ltb, leb, length, take,
  any, same_text, if◌then◌else◌,
}
use globuy.Sessions.Schema.{Text}

pub data Source : Type 0 where
  by_user by_agent by_import : Source

pub record MemoryEntry : Type 0 where
  pub memory_id : ℕ
  pub user_id : ℕ
  pub memory : Text
  pub content_hash : Text
  pub keywords : List Text
  pub source : Source
  pub source_thread_id : Option ℕ
  pub source_run_id : Option ℕ
  pub version : ℕ
  pub created_at : ℕ
  pub updated_at : ℕ
  pub last_confirmed_at : ℕ

pub data MemoryEvent : Type 0 where
  adds updates deletes keeps : MemoryEvent

pub record MemoryHistory : Type 0 where
  pub memory_id : ℕ
  pub user_id : ℕ
  pub event : MemoryEvent
  pub memory_version : ℕ
  pub old_memory : Option Text
  pub new_memory : Option Text
  pub source_thread_id : Option ℕ
  pub source_run_id : Option ℕ
  pub created_at : ℕ

-- An outbox event "memory.upserted".
pub record Upsert : Type 0 where
  pub aggregate_id : ℕ
  pub aggregate_version : ℕ
  pub payload : MemoryEntry
  pub created_at : ℕ

pub record MemoryDb : Type 0 where
  pub entries : List MemoryEntry
  pub history : List MemoryHistory
  pub outbox : List Upsert

pub data MemoryError : Type 0 where
  repeated_target unknown_target missing_target empty_memory memory_duplicate : MemoryError
  memory_not_found integrity_error : MemoryError

pub data MemoryResult (A : Type 0) : Type 0 where
  done : A → MemoryResult A
  refused : MemoryError → MemoryResult A

-- unicodedata, `str.split` and `str.casefold`, hashlib, and the keyword extraction.
pub record TextLibraries : Type 0 where
  pub words : Text → List Text
  pub casefold : Text → Text
  pub digest : Text → Text
  pub extract_keywords : Text → List Text

pub data MemoryAction : Type 0 where
  add_memory : (memory : Text) (keywords : List Text) → MemoryAction
  update_memory : (memory_id : Option ℕ) (memory : Text) (keywords : List Text) → MemoryAction
  delete_memory : (memory_id : Option ℕ) → MemoryAction
  confirm_memory : (memory_id : Option ℕ) → MemoryAction

pub record Change : Type 0 where
  pub id : ℕ
  pub event : MemoryEvent
  pub summary : Text
  pub entry : MemoryEntry

-- The arguments of one call beside its actions.
pub record Origin : Type 0 where
  pub user_id : ℕ
  pub source : Source
  pub source_thread_id : Option ℕ
  pub source_run_id : Option ℕ
  pub now : ℕ

-- `" ".join(...)`
abbrev pub join_words : List Text → Text
join_words [] = []
join_words (w ∷ []) = w
join_words (w ∷ v ∷ ws) = w ++ 32 ∷ join_words (v ∷ ws)

abbrev pub is_empty : Text → Bool
is_empty [] = true
is_empty (c ∷ cs) = false

abbrev pub has_id : ℕ → MemoryEntry → Bool
has_id m x = x.memory_id == m

abbrev pub is_owned : ℕ → ℕ → MemoryEntry → Bool
is_owned u m x = x.memory_id == m && x.user_id == u

abbrev pub has_content : ℕ → Text → MemoryEntry → Bool
has_content u digest x = x.user_id == u && same_text x.content_hash digest

abbrev pub target_of : MemoryAction → List ℕ
target_of (update_memory (some m) memory keywords) = m ∷ []
target_of (delete_memory (some m)) = m ∷ []
target_of (confirm_memory (some m)) = m ∷ []
target_of _ = []

abbrev pub targets : List MemoryAction → List ℕ
targets [] = []
targets (a ∷ rest) = target_of a ++ targets rest

abbrev pub has_repeats : List ℕ → Bool
has_repeats [] = false
has_repeats (m ∷ ms) = any (λ x. x == m) ms || has_repeats ms

abbrev pub all_owned : ℕ → MemoryDb → List ℕ → Bool
all_owned u db [] = true
all_owned u db (m ∷ ms) = any (is_owned u m) db.entries && all_owned u db ms

module _ (lib : TextLibraries) where
  unfoldable pub normalize_memory : Text → Text
  normalize_memory value = join_words (lib.words value)

  unfoldable pub memory_hash : Text → Text
  unfolding normalize_memory
  memory_hash value = lib.digest (lib.casefold (normalize_memory value))

  -- The loop over the proposed keywords, with its `continue` and its `break`.
  abbrev pub add_keywords : List Text → List Text → List Text
  add_keywords merged [] = merged
  add_keywords merged (raw ∷ rest) =
      let value = lib.casefold (normalize_memory raw) in
      let next = merged ++ value ∷ [] in
      let skipped = add_keywords merged rest in
      let added = add_keywords next rest in
      if is_empty value || ltb 64 (length value) || any (same_text value) merged
      then skipped
      else if leb 32 (length next)
      then next
      else added

  unfoldable pub merge_keywords : Text → List Text → List Text
  unfolding normalize_memory
  merge_keywords memory proposed =
      add_keywords (take 32 (lib.extract_keywords memory)) (take 8 proposed)
