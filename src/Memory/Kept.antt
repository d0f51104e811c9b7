-- ===== src/Memory/Kept.antt =====
-- Whatever the memory service and the outbox worker do, no memory is left behind.
use globuy.Prelude.{
  ℕ, ◌≡◌, refl, sym, ap, ◌∙◌, subst, Bool, true, false, ◌&&◌, ◌||◌, not, Option, some, List, ◌==◌,
  any, all, find_first, map, update_where, delete_where, same_text, arith, inl, inr, Bool-cases,
  all-impl, all-and, ==-refl, ==_iff, same_text-eq, same_text_refl, count_if-update,
}
use globuy.Sessions.Schema.{Text}
use globuy.Memory.Entries.{MemoryEntry}
use globuy.Memory.Outbox.{OutboxEvent, is_event, Embedding, is_embedding_of}
use globuy.Memory.Together.{MemoryWorld, as_entry, tables_of}
use globuy.Memory.Fresh.{is_pending_for, is_vector, is_current, is_fresh, Fresh}
use globuy.Memory.Outbox.{Entry, close_event, projection, put_embedding}
use globuy.Memory.Worked.{all-update_same}
use globuy.Memory.Published.{
  pending_kept, row_agrees, row_key, current_dropped, current_replaced, replaced_there,
}

module _ (encode : Text → Option (List ℕ)) (metadata : ℕ) (hash : Text → ℕ) where
  -- The event `e`, of the memory of `x`, is published, and the embeddings become `ps`.
  abbrev pub published : ℕ → ℕ → List Embedding → MemoryWorld → MemoryWorld
  published e now ps w = record w {
    events = update_where (is_event e) (close_event now) w.events;
    embeddings = ps;
  }

  published-Fresh :
      (e now : ℕ) (ps : List Embedding) (w : MemoryWorld) (fits : MemoryEntry → Bool)
      → Fresh encode hash w
      → all fits w.memories.entries ≡ true
      → ((z : MemoryEntry)
          → is_fresh encode hash w.events w.embeddings z ≡ true
          → fits z ≡ true
          → is_fresh encode hash (published e now ps w).events ps z ≡ true)
      → Fresh encode hash (published e now ps w)
  published-Fresh e now ps w fits f fit keep = record {
    entries_unique = f.entries_unique;
    no_conflict = f.no_conflict;
    all_fresh =
        all-impl (λ z. is_fresh encode hash w.events w.embeddings z && fits z) _ w.memories.entries
          (λ z h. keep z (ground arith) (ground arith))
          (all-and (is_fresh encode hash w.events w.embeddings) fits w.memories.entries f.all_fresh
            fit);
    single_events = λ k.
        rw (count_if-update (is_event k) (is_event e) (close_event now) w.events (λ x _. refl))
          (f.single_events k);
    ids_below = all-update_same _ (is_event e) (close_event now) w.events (λ x. refl) ∙ f.ids_below;
    no_deletions =
        all-update_same _ (is_event e) (close_event now) w.events (λ x. refl) ∙ f.no_deletions;
  }

  -- A memory that the event is not about.
  other-is_fresh :
      (e now : ℕ) (x : OutboxEvent) (ps : List Embedding) (w : MemoryWorld) (z : MemoryEntry)
      → Fresh encode hash w
      → find_first (is_event e) w.events ≡ some x
      → (x.aggregate_id == z.memory_id) ≡ false
      → (any (is_current encode hash z.memory_id z.memory) w.embeddings ≡ true
          → any (is_current encode hash z.memory_id z.memory) ps ≡ true)
      → is_fresh encode hash w.events w.embeddings z ≡ true
      → is_fresh encode hash (published e now ps w).events ps z ≡ true
  other-is_fresh e now x ps w z f found other keep h =
      elim (Bool-cases (any (is_pending_for z.memory_id) w.events)) [
        | inl pending ↦
            rw (pending_kept z.memory_id e now x w.events found (f.single_events e) other pending)
              refl
        | inr none_pending ↦
            let current : any (is_current encode hash z.memory_id z.memory) w.embeddings ≡ true =
              ground arith in
            let new = keep current in ground (arith, new)
      ]

  -- The memory is gone, and with it its embedding.
  pub dropped-Fresh :
      (e now : ℕ) (x : OutboxEvent) (w : MemoryWorld)
      → Fresh encode hash w
      → find_first (is_event e) w.events ≡ some x
      → all (λ z. not (z.memory_id == x.aggregate_id)) w.memories.entries ≡ true
      → Fresh encode hash
          (published e now (delete_where (is_embedding_of x.aggregate_id) w.embeddings) w)
  dropped-Fresh e now x w f found gone =
      published-Fresh e now (delete_where (is_embedding_of x.aggregate_id) w.embeddings) w
        (λ z. not (z.memory_id == x.aggregate_id)) f gone
        (λ z h k.
          other-is_fresh e now x (delete_where (is_embedding_of x.aggregate_id) w.embeddings) w z f
            found (ground arith)
            (current_dropped encode hash x.aggregate_id z.memory_id z.memory w.embeddings
              (ground arith))
            h)

  put_keeps :
      (q : Embedding) (w : MemoryWorld) (z : MemoryEntry)
      → (z.memory_id == q.memory_id) ≡ false
      → any (is_current encode hash z.memory_id z.memory) w.embeddings ≡ true
      → any
          (is_current encode hash z.memory_id z.memory)
          (put_embedding encode metadata hash q (tables_of w)).embeddings
        ≡ true
  put_keeps q w z other h = elim (Bool-cases (any (is_embedding_of q.memory_id) w.embeddings)) [
    | inl there ↦
        rw there (current_replaced encode hash q z.memory_id z.memory w.embeddings other h)
    | inr missing ↦ rw missing (ground arith)
  ]

  put_there :
      (q : Embedding) (w : MemoryWorld) (t : Text)
      → q.content_hash ≡ hash t
      → is_vector (encode t) q.embedding ≡ true
      → any
          (is_current encode hash q.memory_id t)
          (put_embedding encode metadata hash q (tables_of w)).embeddings
        ≡ true
  put_there q w t same vector = elim (Bool-cases (any (is_embedding_of q.memory_id) w.embeddings)) [
    | inl there ↦ rw there (replaced_there encode hash q t w.embeddings same vector there)
    | inr missing ↦ rw missing (rw (==-refl q.memory_id, same, ==-refl (hash t), vector) refl)
  ]

  -- The memory is embedded with the text that it has.
  pub projected-Fresh :
      (e now : ℕ) (x : OutboxEvent) (y : Entry) (v : List ℕ) (w : MemoryWorld)
      → Fresh encode hash w
      → find_first (is_event e) w.events ≡ some x
      → find_first (λ z. z.memory_id == x.aggregate_id) (map as_entry w.memories.entries) ≡ some y
      → encode y.memory ≡ some v
      → Fresh encode hash (
          published e now
            (put_embedding encode metadata hash
              (projection encode metadata hash y v now)
              (tables_of w)).embeddings
            w)
  projected-Fresh e now x y v w f found row given =
      let q = projection encode metadata hash y v now in
      let ps = (put_embedding encode metadata hash q (tables_of w)).embeddings in
      let key : y.memory_id ≡ x.aggregate_id = row_key x.aggregate_id y w.memories.entries row in
      published-Fresh e now ps w
        (λ z. not (z.memory_id == x.aggregate_id) || same_text z.memory y.memory) f
        (row_agrees x.aggregate_id y w.memories.entries row (f.entries_unique x.aggregate_id))
        (λ z h k. elim (Bool-cases (z.memory_id == x.aggregate_id)) [
          | inl mine ↦
              let text : z.memory ≡ y.memory = same_text-eq z.memory y.memory (ground arith) in
              let same : z.memory_id ≡ y.memory_id =
                (==_iff z.memory_id x.aggregate_id).0 mine ∙ sym key in
              let vector : is_vector (encode z.memory) v ≡ true =
                subst (λ t. is_vector (encode t) v ≡ true) (sym text)
                  (rw given (same_text_refl v)) in
              let there : any (is_current encode hash z.memory_id z.memory) ps ≡ true =
                subst (λ k. any (is_current encode hash k z.memory) ps ≡ true) (sym same)
                  (put_there q w z.memory (ap hash (sym text)) vector) in
              ground (arith, there)
          | inr other ↦
              other-is_fresh e now x ps w z f found
                (ground (arith, (==_iff x.aggregate_id z.memory_id).0))
                (put_keeps q w z (rw key other)) h
        ])
