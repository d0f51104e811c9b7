-- ===== src/Memory/Served.antt =====
-- A call of the memory service leaves every memory fresh or with an event to be published.
use globuy.Prelude.{
  Option, ℕ, ◌+◌, ◌≤◌, ◌<◌, ◌≡◌, refl, true, ◌&&◌, not, List, [], ◌∷◌, ◌++◌, ◌==◌, ltb, any, all,
  count_if, delete_where, arith, inl, inr, Bool-cases, all-impl, all-and, all-append,
  any-append_left, ==-refl, ==_iff, same_text_refl, count_if-append,
}
use globuy.Sessions.Schema.{Text}
use globuy.Memory.Entries.{MemoryEntry, MemoryDb, Upsert, TextLibraries, has_id}
use globuy.Memory.Outbox.{OutboxEvent, is_deleted, is_event}
use globuy.Memory.Announced.{announces, is_announced}
use globuy.Memory.Batch.{Ordered}
use globuy.Memory.Calls.{MemoryCall, call_memory, call_memory-Ordered}
use globuy.Memory.Together.{
  MemoryWorld, new_events, count_events, without_outbox, is_orphan, after_call,
}
use globuy.Memory.Fresh.{
  is_pending_for, is_fresh, Fresh, was_there, pending_new, any-append_right, kept_embedding,
  was_fresh,
}

-- The new events have the identifiers from `id` on.
new_events_below :
    (e id : ℕ) (us : List Upsert) → e < id → count_if (is_event e) (new_events id us) ≡ 0
new_events_below e id [] h = refl
new_events_below e id (u ∷ us) h = ground (arith, new_events_below e (id + 1) us)

new_events_single : (e id : ℕ) (us : List Upsert) → count_if (is_event e) (new_events id us) ≤ 1
new_events_single e id [] = omega arith
new_events_single e id (u ∷ us) = elim (Bool-cases (id == e)) [
  | inl here ↦
      rw (here, new_events_below e (id + 1) us (ground (arith, (==_iff id e).0))) (omega arith)
  | inr other ↦ rw other (new_events_single e (id + 1) us)
]

count_events-le : (id : ℕ) (us : List Upsert) → id ≤ count_events id us
count_events-le id [] = omega arith
count_events-le id (u ∷ us) = omega (arith, count_events-le (id + 1) us)

new_events_end :
    (id : ℕ) (us : List Upsert)
    → all (λ e. ltb e.event_id (count_events id us)) (new_events id us) ≡ true
new_events_end id [] = refl
new_events_end id (u ∷ us) = ground (arith, new_events_end (id + 1) us, count_events-le (id + 1) us)

new_events_kind :
    (id : ℕ) (us : List Upsert) → all (λ e. not (is_deleted e.event_type)) (new_events id us) ≡ true
new_events_kind id [] = refl
new_events_kind id (u ∷ us) = new_events_kind (id + 1) us

none_above :
    (e n : ℕ) (events : List OutboxEvent)
    → all (λ x. ltb x.event_id n) events ≡ true
    → n ≤ e
    → count_if (is_event e) events ≡ 0
none_above e n [] h k = refl
none_above e n (x ∷ events) h k = ground (arith, none_above e n events)

all_there : (xs : List MemoryEntry) → all (λ x. any (has_id x.memory_id) xs) xs ≡ true
all_there [] = refl
all_there (x ∷ xs) =
    let later : all (λ y. any (has_id y.memory_id) (x ∷ xs)) xs ≡ true =
      all-impl (λ y. any (has_id y.memory_id) xs) (λ y. any (has_id y.memory_id) (x ∷ xs)) xs
        (λ y h. ground arith) (all_there xs) in
    ground (arith, later, ==-refl x.memory_id)

all-was_there :
    (encode : Text → Option (List ℕ)) (hash : Text → ℕ) (xs : List MemoryEntry)
    → all (λ x. was_there encode hash xs x.memory_id x.memory) xs ≡ true
all-was_there encode hash [] = refl
all-was_there encode hash (x ∷ xs) =
    let later : all (λ y. was_there encode hash (x ∷ xs) y.memory_id y.memory) xs ≡ true =
      all-impl (λ y. was_there encode hash xs y.memory_id y.memory)
        (λ y. was_there encode hash (x ∷ xs) y.memory_id y.memory) xs (λ y h. ground arith)
        (all-was_there encode hash xs) in
    ground (arith, later, ==-refl x.memory_id, same_text_refl x.memory)

module _ (encode : Text → Option (List ℕ)) (hash : Text → ℕ) where
  -- An old text is as fresh as it was, a new one has a new event.
  is_fresh-after_call :
      (w : MemoryWorld) (after : MemoryDb) (x : MemoryEntry)
      → Fresh encode hash w
      → is_announced (was_there encode hash w.memories.entries) after.outbox x ≡ true
      → any (has_id x.memory_id) after.entries ≡ true
      → is_fresh encode hash
          (w.events ++ new_events w.next_event after.outbox)
          (delete_where (is_orphan after.entries) w.embeddings)
          x
        ≡ true
  is_fresh-after_call w after x f h there =
      let new = new_events w.next_event after.outbox in
      elim (Bool-cases (was_there encode hash w.memories.entries x.memory_id x.memory)) [
        | inl old ↦
            let before =
              was_fresh encode hash w.events w.embeddings w.memories.entries x.memory_id x.memory
                f.all_fresh old in
            elim (Bool-cases (any (is_pending_for x.memory_id) w.events)) [
              | inl pending ↦
                  rw (any-append_left (is_pending_for x.memory_id) w.events new pending) refl
              | inr none_pending ↦ ground (
                arith,
                before,
                kept_embedding encode hash after.entries x.memory_id x.memory w.embeddings there,
              )
            ]
        | inr changed ↦
            let announced : any (announces x) after.outbox ≡ true = ground arith in
            rw
              (any-append_right encode hash (is_pending_for x.memory_id) w.events new
                (pending_new encode hash w.next_event after.outbox x announced))
              refl
      ]

  after_call-Fresh :
      (w : MemoryWorld) (after : MemoryDb)
      → Fresh encode hash w
      → Ordered (was_there encode hash w.memories.entries) after
      → Fresh encode hash (after_call w after)
  after_call-Fresh w after f o =
      let us = after.outbox in
      record {
        entries_unique = o.unique;
        no_conflict = o.no_conflict;
        all_fresh =
            all-impl
              (λ x.
                is_announced (was_there encode hash w.memories.entries) us x
                && any (has_id x.memory_id) after.entries)
              _ after.entries (λ x h. is_fresh-after_call w after x f (ground arith) (ground arith))
              (all-and _ _ after.entries o.announced (all_there after.entries));
        single_events = λ e.
            rw (count_if-append (is_event e) w.events (new_events w.next_event us))
              (elim (Bool-cases (ltb e w.next_event)) [
                | inl old ↦
                    omega
                      (arith, f.single_events e, new_events_below e w.next_event us (ground arith))
                | inr new ↦ omega (
                  arith,
                  new_events_single e w.next_event us,
                  none_above e w.next_event w.events f.ids_below (ground arith),
                )
              ]);
        ids_below =
            all-append _ w.events (new_events w.next_event us)
              (all-impl _ _ w.events (λ e h. ground (arith, count_events-le w.next_event us))
                f.ids_below)
              (new_events_end w.next_event us);
        no_deletions =
            all-append _ w.events (new_events w.next_event us) f.no_deletions
              (new_events_kind w.next_event us);
      }

  -- What the service finds is in order.
  start-Ordered :
      (w : MemoryWorld)
      → Fresh encode hash w
      → Ordered (was_there encode hash w.memories.entries) (without_outbox w.memories)
  start-Ordered w f = record {
    unique = f.entries_unique;
    no_conflict = f.no_conflict;
    announced =
        all-impl (λ x. was_there encode hash w.memories.entries x.memory_id x.memory) _
          w.memories.entries (λ x h. rw h refl) (all-was_there encode hash w.memories.entries);
  }

  pub serve-Fresh :
      (lib : TextLibraries) (c : MemoryCall) (w : MemoryWorld)
      → Fresh encode hash w
      → Fresh encode hash (after_call w (call_memory lib c (without_outbox w.memories)))
  serve-Fresh lib c w f = after_call-Fresh w (call_memory lib c (without_outbox w.memories)) f (
      call_memory-Ordered (was_there encode hash w.memories.entries) lib c
        (without_outbox w.memories) (start-Ordered w f))
