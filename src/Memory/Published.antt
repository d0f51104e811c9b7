-- ===== src/Memory/Published.antt =====
-- A publishing by the outbox worker leaves every memory fresh or with an event to be published.
use globuy.Prelude.{
  Option, ℕ, ◌≤◌, ◌≡◌, refl, ap, ◌∙◌, subst, true, false, ◌||◌, not, none, some, List, [], ◌∷◌,
  ◌==◌, any, all, count_if, find_first, map, update_where, delete_where, same_text, arith, inl, inr,
  Bool-cases, ==-refl, ==_iff, same_text_refl, some_injective, update_where_none, find_first-some,
}
use globuy.Sessions.Schema.{Text}
use globuy.Memory.Entries.{MemoryEntry, has_id}
use globuy.Memory.Outbox.{OutboxEvent, is_event, Embedding, is_embedding_of}
use globuy.Memory.Together.{as_entry}
use globuy.Memory.Fresh.{is_pending_for, is_vector, is_current}
use globuy.Memory.Outbox.{Entry, close_event}

-- Publishing an event takes no other memory's event away.
pub pending_kept :
    (m e now : ℕ) (x : OutboxEvent) (events : List OutboxEvent)
    → find_first (is_event e) events ≡ some x
    → count_if (is_event e) events ≤ 1
    → (x.aggregate_id == m) ≡ false
    → any (is_pending_for m) events ≡ true
    → any (is_pending_for m) (update_where (is_event e) (close_event now) events) ≡ true
pending_kept m e now x [] found one other h = cc
pending_kept m e now x (y ∷ events) found one other h = elim (Bool-cases (y.event_id == e)) [
  | inl here ↦
      let same : y ≡ x = some_injective (ground arith) in
      let not_mine : (y.aggregate_id == m) ≡ false = ap (λ z. z.aggregate_id == m) same ∙ other in
      let rest : update_where (is_event e) (close_event now) events ≡ events =
        update_where_none (is_event e) (close_event now) events (ground arith) in
      rw (here, rest) (ground arith)
  | inr there ↦ ground (arith, pending_kept m e now x events)
]

none_with :
    (m : ℕ) (entries : List MemoryEntry) (y : Entry)
    → count_if (has_id m) entries ≤ 0
    → all (λ z. not (z.memory_id == m) || same_text z.memory y.memory) entries ≡ true
none_with m [] y h = refl
none_with m (z ∷ entries) y h = ground (arith, none_with m entries y)

-- What the worker reads of a memory.
pub row_agrees :
    (m : ℕ) (y : Entry) (entries : List MemoryEntry)
    → find_first (λ x. x.memory_id == m) (map as_entry entries) ≡ some y
    → count_if (has_id m) entries ≤ 1
    → all (λ z. not (z.memory_id == m) || same_text z.memory y.memory) entries ≡ true
row_agrees m y [] found one = refl
row_agrees m y (z ∷ entries) found one = elim (Bool-cases (z.memory_id == m)) [
  | inl here ↦
      let same : as_entry z ≡ y = some_injective (ground arith) in
      let text : same_text z.memory y.memory ≡ true =
        subst (λ t. same_text z.memory t ≡ true) (ap (λ e. e.memory) same)
          (same_text_refl z.memory) in
      ground (arith, text, none_with m entries y)
  | inr there ↦ ground (arith, row_agrees m y entries)
]

pub row_key :
    (m : ℕ) (y : Entry) (entries : List MemoryEntry)
    → find_first (λ x. x.memory_id == m) (map as_entry entries) ≡ some y
    → y.memory_id ≡ m
row_key m y entries found =
    (==_iff y.memory_id m).0
      (find_first-some (λ (x : Entry). x.memory_id == m) (map as_entry entries) y found).0

pub no_row :
    (m : ℕ) (entries : List MemoryEntry)
    → find_first (λ x. x.memory_id == m) (map as_entry entries) ≡ none
    → all (λ z. not (z.memory_id == m)) entries ≡ true
no_row m [] h = refl
no_row m (z ∷ entries) h = ground (arith, no_row m entries)

module _ (encode : Text → Option (List ℕ)) (hash : Text → ℕ) where
  pub current_dropped :
      (m k : ℕ) (t : Text) (ps : List Embedding)
      → (k == m) ≡ false
      → any (is_current encode hash k t) ps ≡ true
      → any (is_current encode hash k t) (delete_where (is_embedding_of m) ps) ≡ true
  current_dropped m k t [] other h = cc
  current_dropped m k t (p ∷ ps) other h =
      ground (arith, current_dropped m k t ps, (==_iff p.memory_id k).0, (==_iff p.memory_id m).0)

  pub current_replaced :
      (q : Embedding) (k : ℕ) (t : Text) (ps : List Embedding)
      → (k == q.memory_id) ≡ false
      → any (is_current encode hash k t) ps ≡ true
      → any (is_current encode hash k t) (update_where (is_embedding_of q.memory_id) (λ _. q) ps)
        ≡ true
  current_replaced q k t [] other h = cc
  current_replaced q k t (p ∷ ps) other h = ground (
    arith,
    current_replaced q k t ps,
    (==_iff p.memory_id k).0,
    (==_iff p.memory_id q.memory_id).0,
  )

  pub replaced_there :
      (q : Embedding) (t : Text) (ps : List Embedding)
      → q.content_hash ≡ hash t
      → is_vector (encode t) q.embedding ≡ true
      → any (is_embedding_of q.memory_id) ps ≡ true
      → any
          (is_current encode hash q.memory_id t)
          (update_where (is_embedding_of q.memory_id) (λ _. q) ps)
        ≡ true
  replaced_there q t [] e v h = cc
  replaced_there q t (p ∷ ps) e v h =
      ground (arith, replaced_there q t ps, ==-refl q.memory_id, ==-refl q.content_hash)
