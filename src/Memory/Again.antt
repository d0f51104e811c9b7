-- ===== src/Memory/Again.antt =====
-- A memory that is created again, and one that a batch deletes and adds again.
use globuy.Prelude.{
  find_first-update_some, same_text_refl, ℕ, ◌≡◌, refl, Bool, true, false, Option, none, some, List,
  [], ◌∷◌, ◌++◌, any, find_first, update_where, arith, Bool-cases, inl, inr, ==-refl,
}
use globuy.Sessions.Schema.{Text}
use globuy.Memory.Entries.{
  MemoryEntry, MemoryDb, TextLibraries, Origin, done, has_id, has_content, is_empty, memory_hash,
  normalize_memory,
}
use globuy.Memory.Actions.{confirmed, new_entry}
use globuy.Memory.Service.{create, create_unless}

find_first-append_new :
    (p : MemoryEntry → Bool) (xs : List MemoryEntry) (x : MemoryEntry)
    → find_first p xs ≡ none
    → p x ≡ true
    → find_first p (xs ++ x ∷ []) ≡ some x
find_first-append_new p [] x h k = ground arith
find_first-append_new p (y ∷ xs) x h k = ground (arith, find_first-append_new p xs x)

-- The row that a creation leaves behind.
create_unless-some :
    (lib : TextLibraries) (o : Origin) (id : ℕ) (value : Text) (r : Option MemoryEntry)
    (db : MemoryDb) {x : MemoryEntry} {after : MemoryDb}
    → find_first (has_content o.user_id (memory_hash lib value)) db.entries ≡ r
    → create_unless lib o id value r db ≡ (done x, after)
    → find_first (has_content o.user_id (memory_hash lib value)) after.entries ≡ some x
unfolding create_unless
create_unless-some lib o id value (some y) db {x} {after} e k =
    let x_is : confirmed o.now y ≡ x = cc in
    let rows : update_where (has_id y.memory_id) (confirmed o.now) db.entries ≡ after.entries =
      cc in
    rw (← x_is, ← rows)
      (find_first-update_some (has_content o.user_id (memory_hash lib value)) (has_id y.memory_id)
        (confirmed o.now) db.entries y (λ z. refl) e (==-refl y.memory_id))
create_unless-some lib o id value none db {x} {after} e k =
    elim (Bool-cases (any (has_id id) db.entries)) [
      | inl used ↦ let refusal = rw used at k in cc
      | inr free ↦
          let made = rw free at k in
          let x_is : new_entry lib o id value [] ≡ x = cc in
          let rows : db.entries ++ new_entry lib o id value [] ∷ [] ≡ after.entries = cc in
          rw (← rows, ← x_is)
            (find_first-append_new (has_content o.user_id (memory_hash lib value)) db.entries
              (new_entry lib o id value []) e
              (ground (arith, ==-refl o.user_id, same_text_refl (memory_hash lib value))))
    ]

-- Where a creation has returned a memory, a later one by the same user with a text of the same hash
-- returns that memory, confirmed, and changes nothing else.
create_again :
    (lib : TextLibraries) (o o' : Origin) (id id' : ℕ) (memory memory' : Text) (db : MemoryDb)
    {x : MemoryEntry} {after : MemoryDb}
    → create lib o id memory db ≡ (done x, after)
    → o'.user_id ≡ o.user_id
    → is_empty (normalize_memory lib memory') ≡ false
    → memory_hash lib (normalize_memory lib memory') ≡ memory_hash lib (normalize_memory lib memory)
    → create lib o' id' memory' after ≡ (
      done (confirmed o'.now x),
      record after { entries = update_where (has_id x.memory_id) (confirmed o'.now) after.entries },
    )
unfolding create
create_again lib o o' id id' memory memory' db {x} {after} e same_user text same_hash =
    elim (Bool-cases (is_empty (normalize_memory lib memory))) [
      | inl blank ↦ let refusal = rw blank at e in cc
      | inr some_text ↦
          let made = rw some_text at e in
          let there = create_unless-some lib o id (normalize_memory lib memory) _ db refl made in
          rw (text, same_user, same_hash, there) refl
    ]
