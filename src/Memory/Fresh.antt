-- ===== src/Memory/Fresh.antt =====
-- The memory service and the outbox worker together leave no memory behind: one whose text is not the
-- one that was embedded has an event that is still to be published.
use globuy.Prelude.{
  Option, none, some, ℕ, ◌+◌, ◌≤◌, ◌≡◌, refl, sym, subst, Bool, true, false, ◌&&◌, ◌||◌, not, List,
  [], ◌∷◌, ◌++◌, ◌==◌, ltb, any, all, count_if, delete_where, is_some, same_text, arith, inl, inr,
  Bool-cases, ==_iff, same_text-eq,
}
use globuy.Sessions.Schema.{Text}
use globuy.Memory.Entries.{MemoryEntry, Upsert, has_id}
use globuy.Memory.Outbox.{OutboxEvent, is_memory, is_deleted, is_event, Embedding}
use globuy.Memory.Actions.{has_conflict}
use globuy.Memory.Guard.{Unique}
use globuy.Memory.Announced.{announces}
use globuy.Memory.Together.{MemoryWorld, new_events, is_orphan}

abbrev pub is_pending_for : ℕ → OutboxEvent → Bool
is_pending_for m e =
    is_memory e.aggregate_type && e.aggregate_id == m && not (is_some e.published_at)

-- The vector that the encoder gives.
abbrev pub is_vector : Option (List ℕ) → List ℕ → Bool
is_vector none w = false
is_vector (some v) w = same_text v w

module _ (encode : Text → Option (List ℕ)) (hash : Text → ℕ) where
  abbrev pub is_current : ℕ → Text → Embedding → Bool
  is_current m t p =
      p.memory_id == m && p.content_hash == hash t && is_vector (encode t) p.embedding

  -- The memory is embedded with the vector and the hash of its text, or an event for it is still to be published.
  abbrev pub is_fresh : List OutboxEvent → List Embedding → MemoryEntry → Bool
  is_fresh events embeddings x =
      any (is_pending_for x.memory_id) events || any (is_current x.memory_id x.memory) embeddings

  -- No two events have one identifier.
  abbrev pub IsSingle : List OutboxEvent → Type 0
  IsSingle events = (e : ℕ) → count_if (is_event e) events ≤ 1

  pub record Fresh (w : MemoryWorld) : Type 0 where
    pub entries_unique : Unique w.memories.entries
    pub no_conflict : has_conflict w.memories.entries ≡ false
    pub all_fresh : all (is_fresh w.events w.embeddings) w.memories.entries ≡ true
    pub single_events : IsSingle w.events
    pub ids_below : all (λ e. ltb e.event_id w.next_event) w.events ≡ true
    pub no_deletions : all (λ e. not (is_deleted e.event_type)) w.events ≡ true

  -- The text that a memory has had before a call.
  abbrev pub was_there : List MemoryEntry → ℕ → Text → Bool
  was_there entries m t = any (λ y. y.memory_id == m && same_text y.memory t) entries

  pub pending_new :
      (id : ℕ) (us : List Upsert) (x : MemoryEntry)
      → any (announces x) us ≡ true
      → any (is_pending_for x.memory_id) (new_events id us) ≡ true
  pending_new id [] x h = cc
  pending_new id (u ∷ us) x h = ground (arith, pending_new (id + 1) us x)

  pub any-append_right :
      (p : OutboxEvent → Bool) (xs ys : List OutboxEvent)
      → any p ys ≡ true
      → any p (xs ++ ys) ≡ true
  any-append_right p [] ys h = h
  any-append_right p (x ∷ xs) ys h = ground (arith, any-append_right p xs ys)

  -- The embedding of a memory that stays is kept.
  pub kept_embedding :
      (entries : List MemoryEntry) (m : ℕ) (t : Text) (ps : List Embedding)
      → any (has_id m) entries ≡ true
      → any (is_current m t) ps ≡ true
      → any (is_current m t) (delete_where (is_orphan entries) ps) ≡ true
  kept_embedding entries m t [] h k = k
  kept_embedding entries m t (p ∷ ps) h k = elim (Bool-cases (p.memory_id == m)) [
    | inl here ↦
        let stays : is_orphan entries p ≡ false =
          subst (λ n. not (any (has_id n) entries) ≡ false) (sym ((==_iff p.memory_id m).0 here))
            (rw h refl) in
        ground (arith, stays, kept_embedding entries m t ps h)
    | inr other ↦ elim (Bool-cases (is_orphan entries p)) [
      | inl gone ↦ rw gone (kept_embedding entries m t ps h (ground arith))
      | inr stays ↦ rw stays (ground (arith, kept_embedding entries m t ps h))
    ]
  ]

  -- A memory with a text that it had before is as fresh as it was.
  pub was_fresh :
      (events : List OutboxEvent) (ps : List Embedding) (entries : List MemoryEntry) (m : ℕ)
      (t : Text)
      → all (is_fresh events ps) entries ≡ true
      → was_there entries m t ≡ true
      → (any (is_pending_for m) events || any (is_current m t) ps) ≡ true
  was_fresh events ps [] m t h k = cc
  was_fresh events ps (y ∷ entries) m t h k =
      elim (Bool-cases (y.memory_id == m && same_text y.memory t)) [
        | inl here ↦
            let same_id : y.memory_id ≡ m = (==_iff y.memory_id m).0 (ground arith) in
            let same : y.memory ≡ t = same_text-eq y.memory t (ground arith) in
            rw (← same_id, ← same) (ground arith)
        | inr there ↦ was_fresh events ps entries m t (ground arith) (ground arith)
      ]
