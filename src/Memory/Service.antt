-- ===== src/Memory/Service.antt =====
-- class MemoryService of app/memory/service.py: apply_actions, create, update, delete and list. Each
-- call of a writing method is one transaction, and an exception rolls it back.
use globuy.Prelude.{
  ℕ, ◌+◌, Bool, true, false, ◌&&◌, ◌||◌, Option, none, some, List, [], ◌∷◌, ◌++◌, ◌==◌, ltb, any,
  find_first, select_where, update_where, if◌then◌else◌,
}
use globuy.Sessions.Schema.{Text}
use globuy.Memory.Entries.{
  MemoryEntry, MemoryDb, MemoryResult, TextLibraries, MemoryAction, Change, Origin, adds, deletes,
  by_user, done, refused, repeated_target, unknown_target, missing_target, empty_memory,
  memory_not_found, integrity_error, add_memory, update_memory, delete_memory, confirm_memory,
  is_empty, has_id, is_owned, has_content, targets, has_repeats, all_owned, normalize_memory,
  memory_hash,
}
use globuy.Memory.Actions.{
  UnitOfWork, Done, flush, confirmed, change, record_history, upsert, keep_object, new_entry,
  add_unless, update_object, retired, remove_object,
}

abbrev pub open_unit : MemoryDb → UnitOfWork
open_unit db = record {
  stored = db.entries;
  objects = db.entries;
  removed = [];
  history = db.history;
  outbox = db.outbox;
}

-- The flush at the end of the transaction; a refusal rolls back.
abbrev pub after_flush :
    List Change → MemoryDb → Option UnitOfWork → MemoryResult (List Change) × MemoryDb
after_flush changed db none = (refused integrity_error, db)
after_flush changed db (some w) =
    (done changed, record { entries = w.stored; history = w.history; outbox = w.outbox })

unfoldable pub commit :
    MemoryDb → MemoryResult (List Change × UnitOfWork) → MemoryResult (List Change) × MemoryDb
unfolding flush
commit db (refused e) = (refused e, db)
commit db (done (changed, w)) = after_flush changed db (flush w)

module _ (lib : TextLibraries) (o : Origin) where
  unfoldable pub delete_object : MemoryEntry → UnitOfWork → Done
  unfolding remove_object retired
  delete_object x w = done (change deletes x.memory (retired lib o x), remove_object lib o x w)

  -- A look-up in the dictionary of the rows that were loaded.
  abbrev pub with_object :
      (MemoryEntry → UnitOfWork → Done) → UnitOfWork → Option MemoryEntry → Done
  with_object f w none = refused missing_target
  with_object f w (some x) = f x w

  abbrev pub with_target : (MemoryEntry → UnitOfWork → Done) → UnitOfWork → Option ℕ → Done
  with_target f w none = refused missing_target
  with_target f w (some m) = with_object f w (find_first (has_id m) w.objects)

  unfoldable pub add : ℕ → Text → List Text → UnitOfWork → Done
  unfolding add_unless memory_hash
  add id value keywords w =
      if is_empty value
      then refused empty_memory
      else add_unless lib o id value keywords
          (find_first (has_content o.user_id (memory_hash lib value)) w.stored) w

  -- One turn of the loop. A confirmation without a target reports nothing.
  unfoldable pub act : ℕ → MemoryAction → UnitOfWork → Done
  unfolding add update_object delete_object keep_object
  act id (add_memory memory keywords) w = add id (normalize_memory lib memory) keywords w
  act id (update_memory m memory keywords) w =
      with_target (update_object lib o (normalize_memory lib memory) keywords) w m
  act id (delete_memory m) w = with_target delete_object w m
  act id (confirm_memory m) w = with_target (keep_object o.now) w m

  abbrev pub is_silent : MemoryAction → Bool
  is_silent (confirm_memory none) = true
  is_silent _ = false

  abbrev pub report :
      Change → MemoryResult (List Change × UnitOfWork) → MemoryResult (List Change × UnitOfWork)
  report c (refused e) = refused e
  report c (done (changed, w)) = done (c ∷ changed, w)

  abbrev pub after_action :
      (UnitOfWork → MemoryResult (List Change × UnitOfWork))
      → Done
      → MemoryResult (List Change × UnitOfWork)
  after_action next (refused e) = refused e
  after_action next (done (c, w)) = report c (next w)

  unfoldable pub run_actions :
      (ℕ → ℕ) → ℕ → List MemoryAction → UnitOfWork → MemoryResult (List Change × UnitOfWork)
  unfolding act
  run_actions fresh n [] w = done ([], w)
  run_actions fresh n (a ∷ rest) w =
      let skipped = run_actions fresh (n + 1) rest w in
      let acted = after_action (run_actions fresh (n + 1) rest) (act (fresh n) a w) in
      if is_silent a then skipped else acted

  unfoldable pub apply_actions :
      (ℕ → ℕ) → List MemoryAction → MemoryDb → MemoryResult (List Change) × MemoryDb
  unfolding run_actions commit
  apply_actions fresh actions db =
      if has_repeats (targets actions)
      then (refused repeated_target, db)
      else if all_owned o.user_id db (targets actions)
      then commit db (run_actions fresh 0 actions (open_unit db))
      else (refused unknown_target, db)

  unfoldable pub create_unless :
      ℕ → Text → Option MemoryEntry → MemoryDb → MemoryResult MemoryEntry × MemoryDb
  unfolding confirmed new_entry
  create_unless id value (some x) db = (
    done (confirmed o.now x),
    record db { entries = update_where (has_id x.memory_id) (confirmed o.now) db.entries },
  )
  create_unless id value none db =
      let x = new_entry lib o id value [] in
      if any (has_id id) db.entries then (refused integrity_error, db) else (
        done x,
        record {
          entries = db.entries ++ x ∷ [];
          history = db.history ++ record_history o.now adds none (some value) x ∷ [];
          outbox = db.outbox ++ upsert o.now x ∷ [];
        },
      )

  unfoldable pub create : ℕ → Text → MemoryDb → MemoryResult MemoryEntry × MemoryDb
  unfolding create_unless memory_hash normalize_memory
  create id memory db =
      let value = normalize_memory lib memory in
      if is_empty value
      then (refused empty_memory, db)
      else create_unless id value
          (find_first (has_content o.user_id (memory_hash lib value)) db.entries) db

  abbrev pub owned_row : Option MemoryEntry → MemoryResult MemoryEntry
  owned_row none = refused memory_not_found
  owned_row (some x) = done x

  abbrev pub first_entry :
      ℕ → MemoryResult (List Change) × MemoryDb → MemoryResult MemoryEntry × MemoryDb
  first_entry m (refused e, db) = (refused e, db)
  first_entry m (done (c ∷ changed), db) = (done c.entry, db)
  first_entry m (done [], db) = (owned_row (find_first (is_owned o.user_id m) db.entries), db)

-- The two methods of a user's own.
abbrev pub from_user : Origin → Origin
from_user o = record o { source = by_user }

unfoldable pub update :
    TextLibraries → Origin → ℕ → Text → MemoryDb → MemoryResult MemoryEntry × MemoryDb
unfolding apply_actions
update lib o m memory db =
    first_entry lib o m
      (apply_actions lib (from_user o) (λ n. n) (update_memory (some m) memory [] ∷ []) db)

unfoldable pub delete :
    TextLibraries → Origin → ℕ → MemoryDb → MemoryResult (List Change) × MemoryDb
unfolding apply_actions
delete lib o m db = apply_actions lib (from_user o) (λ n. n) (delete_memory (some m) ∷ []) db

-- ORDER BY updated_at DESC, memory_id
abbrev pub is_listed_before : MemoryEntry → MemoryEntry → Bool
is_listed_before x y =
    ltb y.updated_at x.updated_at || x.updated_at == y.updated_at && ltb x.memory_id y.memory_id

abbrev pub insert_listed : MemoryEntry → List MemoryEntry → List MemoryEntry
insert_listed x [] = x ∷ []
insert_listed x (y ∷ ys) =
    let later = insert_listed x ys in if is_listed_before x y then x ∷ y ∷ ys else y ∷ later

abbrev pub sort_listed : List MemoryEntry → List MemoryEntry
sort_listed [] = []
sort_listed (x ∷ xs) = insert_listed x (sort_listed xs)

unfoldable pub list_memories : ℕ → MemoryDb → List MemoryEntry
list_memories u db = sort_listed (select_where (λ x. x.user_id == u) db.entries)
