-- ===== src/Memory/Actions.antt =====
-- MemoryService.apply_actions of app/memory/service.py. A call is one transaction; the clock and the
-- fresh identifiers are arguments. The sessions do not flush by themselves (app/database/session.py),
-- so the rows that a query sees are kept apart from the objects with the changes that are pending. A
-- flush is refused where the table's unique key is violated.
use globuy.Prelude.{
  ℕ, ◌+◌, Bool, false, ◌&&◌, ◌||◌, not, Option, none, some, List, [], ◌∷◌, ◌++◌, ◌==◌, any,
  find_first, update_where, delete_where, same_text, if◌then◌else◌,
}
use globuy.Sessions.Schema.{Text}
use globuy.Memory.Entries.{
  MemoryEntry, MemoryEvent, MemoryHistory, Upsert, MemoryResult, TextLibraries, Change, Origin,
  adds, updates, deletes, keeps, done, refused, empty_memory, memory_duplicate, integrity_error,
  is_empty, has_id, has_content, memory_hash, merge_keywords,
}

pub record UnitOfWork : Type 0 where
  pub stored : List MemoryEntry
  pub objects : List MemoryEntry
  pub removed : List ℕ
  pub history : List MemoryHistory
  pub outbox : List Upsert

-- The unique key of the table: one row for a user and a content hash.
abbrev pub has_conflict : List MemoryEntry → Bool
has_conflict [] = false
has_conflict (x ∷ xs) = any (has_content x.user_id x.content_hash) xs || has_conflict xs

abbrev pub is_removed : List ℕ → MemoryEntry → Bool
is_removed ms x = any (λ m. m == x.memory_id) ms

abbrev pub remaining : UnitOfWork → List MemoryEntry
remaining w = delete_where (is_removed w.removed) w.objects

unfoldable pub flush : UnitOfWork → Option UnitOfWork
flush w =
    if has_conflict (remaining w)
    then none
    else some (record w { stored = remaining w; objects = remaining w; removed = [] })

unfoldable pub confirmed : ℕ → MemoryEntry → MemoryEntry
confirmed now x = record x { last_confirmed_at = now }

abbrev pub record_history :
    ℕ → MemoryEvent → Option Text → Option Text → MemoryEntry → MemoryHistory
record_history now event old new x = record {
  memory_id = x.memory_id;
  user_id = x.user_id;
  event = event;
  memory_version = x.version;
  old_memory = old;
  new_memory = new;
  source_thread_id = x.source_thread_id;
  source_run_id = x.source_run_id;
  created_at = now;
}

abbrev pub upsert : ℕ → MemoryEntry → Upsert
upsert now x = record {
  aggregate_id = x.memory_id;
  aggregate_version = x.version;
  payload = x;
  created_at = now;
}

abbrev pub change : MemoryEvent → Text → MemoryEntry → Change
change event summary x = record { id = x.memory_id; event = event; summary = summary; entry = x }

abbrev pub change_object : ℕ → (MemoryEntry → MemoryEntry) → UnitOfWork → UnitOfWork
change_object m f w = record w { objects = update_where (has_id m) f w.objects }

-- The object that stands for a row: the one in memory, or else the row that was read.
abbrev pub or_row : MemoryEntry → Option MemoryEntry → MemoryEntry
or_row row none = row
or_row row (some x) = x

abbrev pub object_of : MemoryEntry → UnitOfWork → MemoryEntry
object_of row w = or_row row (find_first (has_id row.memory_id) w.objects)

abbrev pub Done : Type 0
Done = MemoryResult (Change × UnitOfWork)

unfoldable pub keep_object : ℕ → MemoryEntry → UnitOfWork → Done
unfolding confirmed
keep_object now x w =
    done (change keeps x.memory (confirmed now x), change_object x.memory_id (confirmed now) w)

module _ (lib : TextLibraries) (o : Origin) where
  unfoldable pub new_entry : ℕ → Text → List Text → MemoryEntry
  new_entry id value keywords = record {
    memory_id = id;
    user_id = o.user_id;
    memory = value;
    content_hash = memory_hash lib value;
    keywords = merge_keywords lib value keywords;
    source = o.source;
    source_thread_id = o.source_thread_id;
    source_run_id = o.source_run_id;
    version = 1;
    created_at = o.now;
    updated_at = o.now;
    last_confirmed_at = o.now;
  }

  -- The flush of the new row alone.
  unfoldable pub insert_object : MemoryEntry → UnitOfWork → UnitOfWork
  insert_object x w = record w {
    stored = w.stored ++ x ∷ [];
    objects = w.objects ++ x ∷ [];
    history = w.history ++ record_history o.now adds none (some x.memory) x ∷ [];
    outbox = w.outbox ++ upsert o.now x ∷ [];
  }

  -- Behind the flush of begin_nested: the insertion, or the duplicate that made it fail.
  unfoldable pub insert_or_keep : MemoryEntry → Option MemoryEntry → UnitOfWork → Done
  unfolding keep_object insert_object
  insert_or_keep x (some duplicate) w = keep_object o.now (object_of duplicate w) w
  insert_or_keep x none w =
      if any (has_id x.memory_id) w.stored
      then refused integrity_error
      else done (change adds x.memory x, insert_object x w)

  unfoldable pub add_flushed : MemoryEntry → Option UnitOfWork → Done
  unfolding insert_or_keep
  add_flushed x none = refused integrity_error
  add_flushed x (some w) =
      insert_or_keep x (find_first (has_content o.user_id x.content_hash) w.stored) w

  unfoldable pub add_unless : ℕ → Text → List Text → Option MemoryEntry → UnitOfWork → Done
  unfolding keep_object add_flushed flush new_entry
  add_unless id value keywords (some duplicate) w = keep_object o.now (object_of duplicate w) w
  add_unless id value keywords none w = add_flushed (new_entry id value keywords) (flush w)

  unfoldable pub revised : Text → List Text → MemoryEntry → MemoryEntry
  revised value keywords x = record x {
    memory = value;
    content_hash = memory_hash lib value;
    keywords = merge_keywords lib value keywords;
    source = o.source;
    source_thread_id = o.source_thread_id;
    source_run_id = o.source_run_id;
    version = x.version + 1;
    updated_at = o.now;
    last_confirmed_at = o.now;
  }

  unfoldable pub revise_object : Text → List Text → MemoryEntry → UnitOfWork → UnitOfWork
  unfolding revised
  revise_object value keywords x w =
      let y = revised value keywords x in
      record w {
        objects = update_where (has_id x.memory_id) (revised value keywords) w.objects;
        history = w.history ++ record_history o.now updates (some x.memory) (some value) y ∷ [];
        outbox = w.outbox ++ upsert o.now y ∷ [];
      }

  -- Another memory of the user has the text.
  abbrev pub is_taken : Text → MemoryEntry → UnitOfWork → Bool
  is_taken value x w =
      any (λ y. has_content o.user_id (memory_hash lib value) y && not (has_id x.memory_id y))
        w.stored

  unfoldable pub update_object : Text → List Text → MemoryEntry → UnitOfWork → Done
  unfolding keep_object revise_object
  update_object value keywords x w =
      if is_empty value
      then refused empty_memory
      else if same_text value x.memory
      then keep_object o.now x w
      else if is_taken value x w
      then refused memory_duplicate
      else done (change updates value (revised value keywords x), revise_object value keywords x w)

  unfoldable pub retired : MemoryEntry → MemoryEntry
  retired x = record x {
    source = o.source;
    source_thread_id = o.source_thread_id;
    source_run_id = o.source_run_id;
    version = x.version + 1;
  }

  unfoldable pub remove_object : MemoryEntry → UnitOfWork → UnitOfWork
  unfolding retired
  remove_object x w = record w {
    objects = update_where (has_id x.memory_id) retired w.objects;
    removed = x.memory_id ∷ w.removed;
    history = w.history ++ record_history o.now deletes (some x.memory) none (retired x) ∷ [];
  }
