-- ===== src/Memory/Calls.antt =====
-- The memory service over any sequence of calls.
use globuy.Prelude.{
  Bool, same_text_sym, any-update, all-impl, all-update, all-append, ℕ, ◌≡◌, refl, sym, ◌∙◌, false,
  Option, none, some, List, [], ◌∷◌, ◌++◌, any, find_first, update_where, arith, Bool-cases, inl,
  inr, count_if-update, subst,
}
use globuy.Sessions.Schema.{Text}
use globuy.Memory.Entries.{
  MemoryEntry, MemoryDb, MemoryResult, TextLibraries, MemoryAction, Change, Origin, done, refused,
  has_id, has_content, update_memory, delete_memory, is_empty, memory_hash, normalize_memory,
}
use globuy.Memory.Actions.{has_conflict, confirmed, new_entry}
use globuy.Memory.Guard.{Unique-append}
use globuy.Memory.Service.{
  create, create_unless, update, delete, first_entry, from_user, apply_actions,
}
use globuy.Memory.Announced.{is_announced, still_announced, upsert-announced}
use globuy.Memory.Batch.{Ordered, InOrder, none_old, apply_actions-Ordered}

any-append_new :
    (y x : MemoryEntry) (xs : List MemoryEntry)
    → any (has_content y.user_id y.content_hash) xs ≡ false
    → has_content x.user_id x.content_hash y ≡ false
    → any (has_content y.user_id y.content_hash) (xs ++ x ∷ []) ≡ false
any-append_new y x [] h k = ground (arith, same_text_sym x.content_hash y.content_hash)
any-append_new y x (z ∷ xs) h k = ground (arith, any-append_new y x xs)

pub has_conflict-append :
    (x : MemoryEntry) (xs : List MemoryEntry)
    → has_conflict xs ≡ false
    → find_first (has_content x.user_id x.content_hash) xs ≡ none
    → has_conflict (xs ++ x ∷ []) ≡ false
has_conflict-append x [] h k = refl
has_conflict-append x (y ∷ xs) h k = ground (arith, has_conflict-append x xs, any-append_new y x xs)

any-confirmed :
    (u now m : ℕ) (digest : Text) (xs : List MemoryEntry)
    → any (has_content u digest) (update_where (has_id m) (confirmed now) xs)
      ≡ any (has_content u digest) xs
unfolding confirmed
any-confirmed u now m digest xs =
    any-update (has_content u digest) (has_id m) (confirmed now) xs (λ x. refl)

pub has_conflict-confirmed :
    (now m : ℕ) (xs : List MemoryEntry)
    → has_conflict (update_where (has_id m) (confirmed now) xs) ≡ has_conflict xs
unfolding confirmed
has_conflict-confirmed now m [] = refl
has_conflict-confirmed now m (x ∷ xs) =
    ground (arith, has_conflict-confirmed now m xs, any-confirmed x.user_id now m x.content_hash xs)

first_entry-db :
    (lib : TextLibraries) (o : Origin) (m : ℕ) (r : MemoryResult (List Change) × MemoryDb)
    → (first_entry lib o m r).1 ≡ r.1
first_entry-db lib o m (refused e, db) = refl
first_entry-db lib o m (done (c ∷ changed), db) = refl
first_entry-db lib o m (done [], db) = refl

-- A call of one of the writing methods.
pub data MemoryCall : Type 0 where
  create_call : (o : Origin) (id : ℕ) (memory : Text) → MemoryCall
  update_call : (o : Origin) (m : ℕ) (memory : Text) → MemoryCall
  delete_call : (o : Origin) (m : ℕ) → MemoryCall
  batch_call : (o : Origin) (fresh : ℕ → ℕ) (actions : List MemoryAction) → MemoryCall

unfoldable pub call_memory : TextLibraries → MemoryCall → MemoryDb → MemoryDb
unfolding create update delete apply_actions
call_memory lib (create_call o id memory) db = (create lib o id memory db).1
call_memory lib (update_call o m memory) db = (update lib o m memory db).1
call_memory lib (delete_call o m) db = (delete lib o m db).1
call_memory lib (batch_call o fresh actions) db = (apply_actions lib o fresh actions db).1

unfoldable pub call_memories : TextLibraries → List MemoryCall → MemoryDb → MemoryDb
unfolding call_memory
call_memories lib [] db = db
call_memories lib (c ∷ cs) db = call_memories lib cs (call_memory lib c db)

module _ (base : ℕ → Text → Bool) where
  create_unless-Ordered :
      (lib : TextLibraries) (o : Origin) (id : ℕ) (value : Text) (r : Option MemoryEntry)
      (db : MemoryDb)
      → Ordered base db
      → find_first (has_content o.user_id (memory_hash lib value)) db.entries ≡ r
      → Ordered base (create_unless lib o id value r db).1
  unfolding create_unless
  create_unless-Ordered lib o id value (some x) db h e = record {
    unique = λ m.
        rw
          (count_if-update (has_id m) (has_id x.memory_id) (confirmed o.now) db.entries
            (λ y _. refl))
          (h.unique m);
    no_conflict = has_conflict-confirmed o.now x.memory_id db.entries ∙ h.no_conflict;
    announced =
        all-update (is_announced base db.outbox) (is_announced base db.outbox) (has_id x.memory_id)
          (confirmed o.now) db.entries (λ y k. k) (λ y _ k. k) h.announced;
  }
  create_unless-Ordered lib o id value none db h e =
      elim (Bool-cases (any (has_id id) db.entries)) [
        | inl used ↦ rw used h
        | inr free ↦
            let x = new_entry lib o id value [] in
            rw free (record {
              unique = Unique-append x db.entries h.unique free;
              no_conflict = has_conflict-append x db.entries h.no_conflict e;
              announced =
                  all-append _ db.entries (x ∷ [])
                    (all-impl _ _ db.entries (still_announced base o.now db.outbox x) h.announced)
                    (ground (arith, upsert-announced base o.now db.outbox x));
            })
      ]

  create-Ordered :
      (lib : TextLibraries) (o : Origin) (id : ℕ) (memory : Text) (db : MemoryDb)
      → Ordered base db
      → Ordered base (create lib o id memory db).1
  unfolding create
  create-Ordered lib o id memory db h = elim (Bool-cases (is_empty (normalize_memory lib memory))) [
    | inl blank ↦ rw blank h
    | inr text ↦ rw text (create_unless-Ordered lib o id (normalize_memory lib memory) _ db h refl)
  ]

  update-Ordered :
      (lib : TextLibraries) (o : Origin) (m : ℕ) (memory : Text) (db : MemoryDb)
      → Ordered base db
      → Ordered base (update lib o m memory db).1
  unfolding update
  update-Ordered lib o m memory db h =
      subst (Ordered base)
        (sym (
          first_entry-db lib o m
            (apply_actions lib (from_user o) (λ n. n) (update_memory (some m) memory [] ∷ []) db)))
        (apply_actions-Ordered base lib (from_user o) (λ n. n)
          (update_memory (some m) memory [] ∷ []) db h)

  pub call_memory-Ordered :
      (lib : TextLibraries) (c : MemoryCall) (db : MemoryDb)
      → Ordered base db
      → Ordered base (call_memory lib c db)
  unfolding call_memory delete
  call_memory-Ordered lib (create_call o id memory) db h = create-Ordered lib o id memory db h
  call_memory-Ordered lib (update_call o m memory) db h = update-Ordered lib o m memory db h
  call_memory-Ordered lib (delete_call o m) db h =
      apply_actions-Ordered base lib (from_user o) (λ n. n) (delete_memory (some m) ∷ []) db h
  call_memory-Ordered lib (batch_call o fresh actions) db h =
      apply_actions-Ordered base lib o fresh actions db h

-- From tables in order, whatever calls any users make in whatever order and however they end, the
-- identifiers of the memories are distinct, no user has two memories with one content hash, and the
-- outbox has an event with the identifier, the version and the text of every memory.
pub calls_keep_order :
    (lib : TextLibraries) (cs : List MemoryCall) (db : MemoryDb)
    → InOrder db
    → InOrder (call_memories lib cs db)
unfolding call_memories
calls_keep_order lib [] db h = h
calls_keep_order lib (c ∷ cs) db h =
    calls_keep_order lib cs (call_memory lib c db) (call_memory-Ordered none_old lib c db h)
