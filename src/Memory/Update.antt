-- ===== src/Memory/Update.antt =====
-- What an update of a memory by its user comes to, on every branch.
use globuy.Prelude.{
  find_first_unique, same_text_sym, update_where_none, ℕ, ◌+◌, ◌≤◌, ◌≡◌, refl, sym, ap, ◌∙◌, true,
  false, ◌&&◌, not, some, List, [], ◌∷◌, ◌++◌, ◌==◌, any, find_first, count_if, update_where,
  delete_where, if◌then◌else◌, arith, Bool-cases, same_text, inl, inr, find_first-some, subst,
  ==_iff,
}
use globuy.Sessions.Schema.{Text}
use globuy.Memory.Entries.{
  merge_keywords, by_user, memory_duplicate, empty_memory, updates, MemoryEntry, MemoryDb,
  MemoryResult, TextLibraries, Origin, done, refused, has_id, is_owned, has_content, update_memory,
  is_empty, memory_hash, normalize_memory,
}
use globuy.Memory.Actions.{
  UnitOfWork, flush, is_removed, has_conflict, confirmed, revised, revise_object, update_object,
  change_object, is_taken,
}
use globuy.Memory.Guard.{others, Ours-of_owned}
use globuy.Memory.Service.{update, from_user, after_action, commit, open_unit, apply_actions}
use globuy.Memory.Batch.{InOrder}
use globuy.Memory.Calls.{has_conflict-confirmed}

pub any-other :
    (u m : ℕ) (digest : Text) (xs : List MemoryEntry)
    → any (λ y. has_content u digest y && not (has_id m y)) xs ≡ false
    → count_if (has_id m) xs ≡ 0
    → any (has_content u digest) xs ≡ false
any-other u m digest [] h k = refl
any-other u m digest (x ∷ xs) h k = ground (arith, any-other u m digest xs)

module _ (u m : ℕ) (digest : Text) (f : MemoryEntry → MemoryEntry)
    (user : (x : MemoryEntry) → (f x).user_id ≡ x.user_id)
    (hash : (x : MemoryEntry) → (f x).content_hash ≡ digest) where
  -- Every row with the identifier is the user's.
  abbrev IsOurs : List MemoryEntry → Type 0
  IsOurs xs = any (λ x. has_id m x && not (x.user_id == u)) xs ≡ false

  any-revised :
      (y : MemoryEntry) (xs : List MemoryEntry)
      → any (has_content y.user_id y.content_hash) xs ≡ false
      → has_content u digest y ≡ false
      → IsOurs xs
      → any (has_content y.user_id y.content_hash) (update_where (has_id m) f xs) ≡ false
  any-revised y [] h k ours = refl
  any-revised y (x ∷ xs) h k ours =
      ground (arith, any-revised y xs, user x, hash x, same_text_sym digest y.content_hash)

  has_conflict-revised :
      (xs : List MemoryEntry)
      → has_conflict xs ≡ false
      → count_if (has_id m) xs ≤ 1
      → IsOurs xs
      → any (λ y. has_content u digest y && not (has_id m y)) xs ≡ false
      → has_conflict (update_where (has_id m) f xs) ≡ false
  has_conflict-revised [] h one ours free = refl
  has_conflict-revised (x ∷ xs) h one ours free = elim (Bool-cases (has_id m x)) [
    | inl here ↦
        let alone : count_if (has_id m) xs ≡ 0 = ground arith in
        rw (here, update_where_none (has_id m) f xs alone, user x, hash x)
          (ground (arith, any-other u m digest xs, (==_iff x.user_id u).0))
    | inr there ↦ ground (arith, has_conflict-revised xs, any-revised x xs)
  ]

pub owned_any :
    (u m : ℕ) (xs : List MemoryEntry) (x : MemoryEntry)
    → find_first (is_owned u m) xs ≡ some x
    → any (is_owned u m) xs ≡ true
owned_any u m [] x e = cc
owned_any u m (y ∷ xs) x e = ground (arith, owned_any u m xs x)

any-others :
    (u m : ℕ) (xs : List MemoryEntry)
    → any (has_id m) (others u xs) ≡ any (λ y. has_id m y && not (y.user_id == u)) xs
any-others u m [] = refl
any-others u m (x ∷ xs) = ground (arith, any-others u m xs)

pub owned_entry :
    (u m : ℕ) (xs : List MemoryEntry) (x : MemoryEntry)
    → find_first (is_owned u m) xs ≡ some x
    → count_if (has_id m) xs ≤ 1
    → (find_first (has_id m) xs ≡ some x)
      × (any (is_owned u m) xs ≡ true)
      × (any (λ y. has_id m y && not (y.user_id == u)) xs ≡ false)
      × (x.memory_id ≡ m)
owned_entry u m xs x e one =
    let (owned, _) = find_first-some (is_owned u m) xs x e in
    let there = owned_any u m xs x e in
    (
      find_first_unique (is_owned u m) (has_id m) xs x e (ground arith) one,
      there,
      sym (any-others u m xs) ∙ Ours-of_owned u m xs there one,
      (==_iff x.memory_id m).0 (ground arith),
    )

pub delete_where_nothing : (xs : List MemoryEntry) → delete_where (is_removed []) xs ≡ xs
delete_where_nothing [] = refl
delete_where_nothing (x ∷ xs) = ap (◌∷◌ x) (delete_where_nothing xs)

-- The end of a transaction that removes nothing.
pub flush_kept :
    (w : UnitOfWork)
    → w.removed ≡ []
    → has_conflict w.objects ≡ false
    → flush w ≡ some (record w { stored = w.objects; objects = w.objects; removed = [] })
unfolding flush
flush_kept w e free = rw (e, delete_where_nothing w.objects, free) refl

module _ (lib : TextLibraries) (o : Origin) (m : ℕ) (memory : Text) (db : MemoryDb) where
  -- The memory with a new text, as its user gave it.
  abbrev next_version : Text → MemoryEntry → MemoryEntry
  next_version value x = record {
    memory_id = x.memory_id;
    user_id = x.user_id;
    memory = value;
    content_hash = memory_hash lib value;
    keywords = merge_keywords lib value [];
    source = by_user;
    source_thread_id = o.source_thread_id;
    source_run_id = o.source_run_id;
    version = x.version + 1;
    created_at = x.created_at;
    updated_at = o.now;
    last_confirmed_at = o.now;
  }

  abbrev pub updated : Text → MemoryEntry → MemoryResult MemoryEntry × MemoryDb
  updated value x =
      let y = next_version value x in
      if is_empty value
      then (refused empty_memory, db)
      else if same_text value x.memory
      then (
        done (record x { last_confirmed_at = o.now }),
        record db {
          entries =
              update_where (has_id x.memory_id) (λ z. record z { last_confirmed_at = o.now })
                db.entries;
        },
      )
      else if any
          (λ z. has_content o.user_id (memory_hash lib value) z && not (has_id x.memory_id z))
          db.entries
      then (refused memory_duplicate, db)
      else (
        done y,
        record {
          entries = update_where (has_id x.memory_id) (next_version value) db.entries;
          history =
              db.history
              ++ record {
                memory_id = x.memory_id;
                user_id = x.user_id;
                event = updates;
                memory_version = x.version + 1;
                old_memory = some x.memory;
                new_memory = some value;
                source_thread_id = o.source_thread_id;
                source_run_id = o.source_run_id;
                created_at = o.now;
              }
                ∷ [];
          outbox =
              db.outbox
              ++ record {
                aggregate_id = x.memory_id;
                aggregate_version = x.version + 1;
                payload = y;
                created_at = o.now;
              }
                ∷ [];
        },
      )

  update_run :
      (x : MemoryEntry)
      → find_first (has_id m) db.entries ≡ some x
      → any (is_owned o.user_id m) db.entries ≡ true
      → apply_actions lib (from_user o) (λ n. n) (update_memory (some m) memory [] ∷ []) db
        ≡ commit db (
            after_action lib
              (from_user o)
              (λ w. done ([], w))
              (update_object lib (from_user o) (normalize_memory lib memory) [] x (open_unit db)))
  unfolding apply_actions
  update_run x found owned = rw (owned, found) refl

  -- An update by the user who owns the memory, in tables in order, is refused if the text is empty or
  -- another memory of the user has it, and only gives the memory a new time of confirmation if the
  -- text is the same. Otherwise the memory has the new text with its hash and keywords, the next
  -- version, the user as its source and the time of the update, and a row of the history and an event
  -- of the outbox say so. No row of the tables changes besides, and the flush is not refused.
  pub update_outcome :
      (x : MemoryEntry)
      → InOrder db
      → find_first (is_owned o.user_id m) db.entries ≡ some x
      → update lib o m memory db ≡ updated (normalize_memory lib memory) x
  unfolding update apply_actions revised confirmed
  update_outcome x h e =
      let value = normalize_memory lib memory in
      let u = from_user o in
      let (found, owned, ours, same_id) = owned_entry o.user_id m db.entries x e (h.unique m) in
      rw (update_run x found owned) (elim (Bool-cases (is_empty value)) [
        | inl blank ↦ rw blank refl
        | inr text ↦ rw text (elim (Bool-cases (same_text value x.memory)) [
          | inl same ↦ rw same (
              rw
                (flush_kept (change_object x.memory_id (confirmed o.now) (open_unit db)) refl
                  (has_conflict-confirmed o.now x.memory_id db.entries ∙ h.no_conflict))
                refl)
          | inr new ↦ rw new (elim (Bool-cases (is_taken lib u value x (open_unit db))) [
            | inl taken ↦ rw taken refl
            | inr free ↦ rw free (
                rw
                  (flush_kept (revise_object lib u value [] x (open_unit db)) refl (
                    has_conflict-revised o.user_id x.memory_id (memory_hash lib value)
                      (revised lib u value []) (λ y. refl) (λ y. refl) db.entries h.no_conflict
                      (h.unique x.memory_id)
                      (subst
                        (λ n.
                          any (λ y. has_id n y && not (y.user_id == o.user_id)) db.entries ≡ false)
                        (sym same_id) ours)
                      free))
                  refl)
          ])
        ])
      ])
