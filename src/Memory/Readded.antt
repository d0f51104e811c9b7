-- ===== src/Memory/Readded.antt =====
-- A memory that a batch deletes and adds again: the row that is to be removed is still found.
use globuy.Prelude.{
  any, same_text-eq, find_first_unique, find_first-update_some, ℕ, ◌≡◌, refl, ap, Bool, false, ◌&&◌,
  not, none, some, List, [], ◌∷◌, ◌++◌, any, find_first, update_where, delete_where, arith,
  Bool-cases, some_injective, inl, inr, subst, ==-refl, ==_iff,
}
use globuy.Sessions.Schema.{Text}
use globuy.Memory.Entries.{
  deletes, keeps, MemoryEntry, MemoryDb, TextLibraries, Origin, done, has_id, has_content,
  add_memory, delete_memory, is_empty, memory_hash, normalize_memory,
}
use globuy.Memory.Actions.{is_removed, has_conflict, confirmed, retired, record_history, change}
use globuy.Memory.Guard.{found_owned}
use globuy.Memory.Service.{apply_actions}
use globuy.Memory.Batch.{InOrder}

-- A row with the text of the user is the row that was deleted.
any-removed :
    (u m : ℕ) (digest : Text) (xs : List MemoryEntry)
    → any (λ y. has_content u digest y && not (has_id m y)) xs ≡ false
    → any (has_content u digest) (delete_where (has_id m) xs) ≡ false
any-removed u m digest [] h = refl
any-removed u m digest (x ∷ xs) h = ground (arith, any-removed u m digest xs)

any-delete :
    (p q : MemoryEntry → Bool) (xs : List MemoryEntry)
    → any p xs ≡ false
    → any p (delete_where q xs) ≡ false
any-delete p q [] h = refl
any-delete p q (x ∷ xs) h = ground (arith, any-delete p q xs)

has_conflict-delete :
    (m : ℕ) (xs : List MemoryEntry)
    → has_conflict xs ≡ false
    → has_conflict (delete_where (has_id m) xs) ≡ false
has_conflict-delete m [] h = refl
has_conflict-delete m (x ∷ xs) h = ground (
  arith,
  has_conflict-delete m xs,
  any-delete (has_content x.user_id x.content_hash) (has_id m) xs,
)

any-and :
    (u : ℕ) (digest : Text) (q : MemoryEntry → Bool) (xs : List MemoryEntry)
    → any (has_content u digest) xs ≡ false
    → any (λ y. has_content u digest y && q y) xs ≡ false
any-and u digest q [] h = refl
any-and u digest q (x ∷ xs) h = ground (arith, any-and u digest q xs)

-- Where no two rows conflict, one row has the content that a query finds.
none_other :
    (u : ℕ) (digest : Text) (xs : List MemoryEntry) (x : MemoryEntry)
    → has_conflict xs ≡ false
    → find_first (has_content u digest) xs ≡ some x
    → any (λ y. has_content u digest y && not (has_id x.memory_id y)) xs ≡ false
none_other u digest [] x h e = refl
none_other u digest (y ∷ xs) x h e = elim (Bool-cases (has_content u digest y)) [
  | inl here ↦
      let same_user : y.user_id ≡ u = (==_iff y.user_id u).0 (ground arith) in
      let same_hash : y.content_hash ≡ digest = same_text-eq y.content_hash digest (ground arith) in
      let alone : any (has_content u digest) xs ≡ false =
        subst (λ d. any (has_content u d) xs ≡ false) same_hash
          (subst (λ v. any (has_content v y.content_hash) xs ≡ false) same_user (ground arith)) in
      let found : y ≡ x = some_injective (ground arith) in
      let same_id : y.memory_id ≡ x.memory_id = ap (λ z. z.memory_id) found in
      ground (arith, same_id, any-and u digest (λ z. not (has_id x.memory_id z)) xs alone)
  | inr there ↦ ground (arith, none_other u digest xs x)
]

delete_changed :
    (m : ℕ) (f g : MemoryEntry → MemoryEntry) (xs : List MemoryEntry)
    → ((x : MemoryEntry) → (f x).memory_id ≡ x.memory_id)
    → ((x : MemoryEntry) → (g x).memory_id ≡ x.memory_id)
    → delete_where (is_removed (m ∷ [])) (update_where (has_id m) g (update_where (has_id m) f xs))
      ≡ delete_where (has_id m) xs
delete_changed m f g [] h k = refl
delete_changed m f g (x ∷ xs) h k = ground (
  arith,
  h x,
  k (f x),
  k x,
  delete_changed m f g xs h k,
  (==_iff m x.memory_id).0,
  (==_iff x.memory_id m).0,
  ==-refl m,
  ==-refl x.memory_id,
)

module _ (lib : TextLibraries) (o : Origin) (fresh : ℕ → ℕ) (memory : Text) (keywords : List Text)
    (db : MemoryDb) where
  -- A batch that deletes a user's memory and adds a text with the same hash reports the addition as
  -- NONE, and the user has no memory with that hash behind it.
  pub readded_memory_is_lost :
      (x : MemoryEntry)
      → InOrder db
      → is_empty (normalize_memory lib memory) ≡ false
      → find_first
          (has_content o.user_id (memory_hash lib (normalize_memory lib memory)))
          db.entries
        ≡ some x
      → (apply_actions lib o fresh
            (delete_memory (some x.memory_id) ∷ add_memory memory keywords ∷ [])
            db
          ≡ (
            done (
                change deletes x.memory (retired lib o x)
                ∷ change keeps x.memory (confirmed o.now (retired lib o x))
                ∷ []),
            record {
              entries = delete_where (has_id x.memory_id) db.entries;
              history =
                  db.history
                  ++ record_history o.now deletes (some x.memory) none (retired lib o x) ∷ [];
              outbox = db.outbox;
            },
          ))
        × (any
              (has_content o.user_id (memory_hash lib (normalize_memory lib memory)))
              (delete_where (has_id x.memory_id) db.entries)
            ≡ false)
  unfolding apply_actions
  readded_memory_is_lost x h text e =
      let free = none_other o.user_id _ db.entries x h.no_conflict e in
      let mine = found_owned o.user_id _ db.entries x e in
      let found =
        find_first_unique _ (has_id x.memory_id) db.entries x e (==-refl x.memory_id)
          (h.unique x.memory_id) in
      let retired_there =
        find_first-update_some (has_id x.memory_id) (has_id x.memory_id) (retired lib o) db.entries
          x (λ y. refl) found (==-refl x.memory_id) in
      (
        rw (mine, found, text, e, retired_there)
            (rw
              (
                delete_changed x.memory_id (retired lib o) (confirmed o.now) db.entries (λ y. refl)
                    (λ y. refl),
                has_conflict-delete x.memory_id db.entries h.no_conflict,
              )
              refl),
        any-removed o.user_id x.memory_id _ db.entries free,
      )
