-- ===== src/Memory/Behind.antt =====
-- Any sequence of calls of the memory service and of transactions of the outbox worker.
use globuy.Prelude.{
  ℕ, ◌≡◌, refl, sym, subst, Bool, true, false, ◌||◌, not, Option, none, some, List, [], ◌∷◌, ◌==◌,
  any, all, find_first, map, is_some, arith, inl, inr, Bool-cases, Option-cases,
}
use globuy.Sessions.Schema.{Text}
use globuy.Memory.Entries.{TextLibraries}
use globuy.Memory.Outbox.{
  OutboxEvent, is_deleted, is_event, Embedding, OutboxConfig, is_embedding_of, claim_events,
  publish_event, fail_event, requeue_event,
}
use globuy.Memory.Together.{
  MemoryWorld, MemoryMove, as_entry, tables_of, with_tables, unless_raised, serve, claim_move,
  publish_move, fail_move, requeue_move, move, moves,
}
use globuy.Memory.Fresh.{Fresh}
use globuy.Memory.Served.{serve-Fresh}
use globuy.Memory.Outbox.{
  Entry, close_event, update_events, projection, put_embedding, project, mark_published,
  publish_row, entry_row, event_row,
}
use globuy.Memory.Consolidation.{holds}
use globuy.Memory.Worked.{same-Fresh}
use globuy.Memory.Worked.{claim_events-SameTables, fail_row-SameTables, requeue_row-SameTables}
use globuy.Memory.Published.{no_row}
use globuy.Memory.Kept.{published, dropped-Fresh, projected-Fresh}

found_passes :
    (p q : OutboxEvent → Bool) (xs : List OutboxEvent) (x : OutboxEvent)
    → find_first p xs ≡ some x
    → all q xs ≡ true
    → q x ≡ true
found_passes p q [] x h k = cc
found_passes p q (y ∷ xs) x h k = ground (arith, found_passes p q xs x)

module _ (encode : Text → Option (List ℕ)) (metadata : ℕ) (hash : Text → ℕ) where
  put_published :
      (e now : ℕ) (q : Embedding) (w : MemoryWorld)
      → with_tables w (
          update_events
            (is_event e)
            (close_event now)
            (put_embedding encode metadata hash q (tables_of w)))
        ≡ published encode metadata hash e now
            (put_embedding encode metadata hash q (tables_of w)).embeddings
            w
  put_published e now q w = elim (Bool-cases (any (is_embedding_of q.memory_id) w.embeddings)) [
    | inl there ↦ rw there refl
    | inr missing ↦ rw missing refl
  ]

  project-Fresh :
      (e now : ℕ) (x : OutboxEvent) (o : Option Entry) (w : MemoryWorld)
      → Fresh encode hash w
      → find_first (is_event e) w.events ≡ some x
      → find_first (λ z. z.memory_id == x.aggregate_id) (map as_entry w.memories.entries) ≡ o
      → Fresh encode hash (
          unless_raised w (
            mark_published encode metadata hash e now
              (project encode metadata hash false x.aggregate_id o now (tables_of w))))
  project-Fresh e now x none w f found row =
      dropped-Fresh encode metadata hash e now x w f found
        (no_row x.aggregate_id w.memories.entries row)
  project-Fresh e now x (some y) w f found row = elim (Option-cases (encode y.memory)) [
    | inl raised ↦ rw raised f
    | inr (v, given) ↦ rw given (
        subst (Fresh encode hash)
          (sym (put_published e now (projection encode metadata hash y v now) w))
          (projected-Fresh encode metadata hash e now x y v w f found row given))
  ]

  pub publish_row-Fresh :
      (e token now : ℕ) (o : Option OutboxEvent) (w : MemoryWorld)
      → Fresh encode hash w
      → find_first (is_event e) w.events ≡ o
      → Fresh encode hash
          (unless_raised w (publish_row encode metadata hash e token o now (tables_of w)))
  unfolding entry_row
  publish_row-Fresh e token now none w f found = f
  publish_row-Fresh e token now (some x) w f found =
      elim (Bool-cases (is_some x.published_at || not (holds token x.claim_token))) [
        | inl not_held ↦ rw not_held f
        | inr held ↦
            let kind : is_deleted x.event_type ≡ false = ground (
              arith,
              found_passes (is_event e) (λ y. not (is_deleted y.event_type)) w.events x found
                  f.no_deletions,
            ) in
            rw (held, kind) (project-Fresh e now x _ w f found refl)
      ]

  module _ (lib : TextLibraries) (cfg : OutboxConfig) where
    move-Fresh :
        (m : MemoryMove) (w : MemoryWorld)
        → Fresh encode hash w
        → Fresh encode hash (move lib encode metadata hash cfg m w)
    unfolding move
    move-Fresh (serve c) w f = serve-Fresh encode hash lib c w f
    move-Fresh (claim_move now token) w f =
        same-Fresh encode hash w (claim_events cfg now token (tables_of w)).1 f
          (claim_events-SameTables cfg now token (tables_of w))
    move-Fresh (publish_move e token now) w f =
        unfold publish_event event_row in
        publish_row-Fresh e token now (event_row e (tables_of w)) w f refl
    move-Fresh (fail_move e token now) w f =
        unfold fail_event in
        same-Fresh encode hash w (fail_event cfg e token now (tables_of w)) f
          (fail_row-SameTables cfg e token now (event_row e (tables_of w)) (tables_of w))
    move-Fresh (requeue_move e now) w f =
        unfold requeue_event in
        same-Fresh encode hash w (requeue_event e now (tables_of w)).1 f
          (requeue_row-SameTables e now (event_row e (tables_of w)) (tables_of w))

    -- Where the identifiers of memories and events are distinct and below the next one, no user has
    -- two memories with one content hash, no event asks for a deletion, and each memory has an
    -- unpublished event or is embedded with the vector and the hash of its text, the same holds
    -- behind any sequence of calls of the memory service and of transactions of the outbox worker,
    -- however they end.
    pub no_memory_left_behind :
        (ms : List MemoryMove) (w : MemoryWorld)
        → Fresh encode hash w
        → Fresh encode hash (moves lib encode metadata hash cfg ms w)
    unfolding moves
    no_memory_left_behind [] w f = f
    no_memory_left_behind (m ∷ ms) w f =
        no_memory_left_behind ms (move lib encode metadata hash cfg m w) (move-Fresh m w f)
