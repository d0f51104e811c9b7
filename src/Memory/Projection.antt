-- ===== src/Memory/Projection.antt =====
-- What the outbox worker makes of an event: the projection of its memory, once.
use globuy.Prelude.{
  ==-refl, ==_iff, ℕ, ◌≡◌, refl, ap, ◌∙◌, sym, Bool, true, false, ◌||◌, not, Option, none, some,
  List, [], ◌∷◌, ◌==◌, is_some, any, find_first, update_where, delete_where, arith,
  find_first-update, find_first-some, inl, inr, Bool-cases, Option-cases, some_injective,
  none_not_some, false_not_true,
}
use globuy.Sessions.Schema.{Text}
use globuy.Memory.Consolidation.{holds}
use globuy.Memory.Outbox.{
  OutboxEvent, Entry, Embedding, Tables, is_event, event_row, entry_row, embedding_row,
  update_events, close_event, is_deleted, is_embedding_of, projection, put_embedding,
  drop_embedding, store_vector, project, mark_published, publish_row, publish_event,
}

module _ {ℓ} {A : Type ℓ} where
  find_first-replace :
      (p : A → Bool) (a : A) (xs : List A)
      → p a ≡ true
      → any p xs ≡ true
      → find_first p (update_where p (λ _. a) xs) ≡ some a
  find_first-replace p a [] h k = cc
  find_first-replace p a (x ∷ xs) h k = ground (arith, find_first-replace p a xs h)

  find_first-deleted : (p : A → Bool) (xs : List A) → find_first p (delete_where p xs) ≡ none
  find_first-deleted p [] = refl
  find_first-deleted p (x ∷ xs) = ground (arith, find_first-deleted p xs)

module _ (encode : Text → Option (List ℕ)) (metadata : ℕ) (memory_hash : Text → ℕ) where
  -- The projection that an event asks for.
  abbrev of_vector : Entry → ℕ → Option (List ℕ) → Option Embedding
  of_vector x now none = none
  of_vector x now (some v) = some (record {
    memory_id = x.memory_id;
    embedding = v;
    metadata = metadata;
    content_hash = memory_hash x.memory;
    embedded_at = now;
  })

  abbrev pub wanted : Bool → Option Entry → ℕ → Option Embedding
  wanted gone none now = none
  wanted true (some x) now = none
  wanted false (some x) now = of_vector x now (encode x.memory)

  put_embedding-row :
      (p : Embedding) (db : Tables)
      → embedding_row p.memory_id (put_embedding encode metadata memory_hash p db) ≡ some p
  unfolding embedding_row
  put_embedding-row p db = elim (Bool-cases (any (is_embedding_of p.memory_id) db.embeddings)) [
    | inl there ↦ rw there (
        find_first-replace (is_embedding_of p.memory_id) p db.embeddings (==-refl p.memory_id)
          there)
    | inr missing ↦ rw missing (rw (==-refl p.memory_id) refl)
  ]

  put_embedding-events :
      (p : Embedding) (db : Tables)
      → (put_embedding encode metadata memory_hash p db).events ≡ db.events
  put_embedding-events p db = elim (Bool-cases (any (is_embedding_of p.memory_id) db.embeddings)) [
    | inl there ↦ rw there refl
    | inr missing ↦ rw missing refl
  ]

  unmoved :
      (e now m : ℕ) (db : Tables)
      → embedding_row m (update_events (is_event e) (close_event now) db) ≡ embedding_row m db
  unfolding embedding_row
  unmoved e now m db = refl

  project_returns :
      ((t : Text) → is_some (encode t) ≡ true)
      → (gone : Bool) (m : ℕ) (o : Option Entry) (now : ℕ) (db : Tables)
      → is_some (project encode metadata memory_hash gone m o now db) ≡ true
  project_returns total gone m none now db = refl
  project_returns total true m (some y) now db = refl
  project_returns total false m (some y) now db = elim (Option-cases (encode y.memory)) [
    | inl raised ↦ absurd (false_not_true (sym (ap is_some raised) ∙ total y.memory))
    | inr (v, given) ↦ rw given refl
  ]

  mark_published_returns :
      (e now : ℕ) (o : Option Tables)
      → is_some o ≡ true
      → is_some (mark_published encode metadata memory_hash e now o) ≡ true
  mark_published_returns e now none h = h
  mark_published_returns e now (some db) h = refl

  publish_row_returns :
      ((t : Text) → is_some (encode t) ≡ true)
      → (e token : ℕ) (o : Option OutboxEvent) (now : ℕ) (db : Tables)
      → is_some (publish_row encode metadata memory_hash e token o now db) ≡ true
  publish_row_returns total e token none now db = refl
  publish_row_returns total e token (some x) now db =
      elim (Bool-cases (is_some x.published_at || not (holds token x.claim_token))) [
        | inl late ↦ rw late refl
        | inr held ↦ rw held (
            mark_published_returns e now _ (
              project_returns total (is_deleted x.event_type) x.aggregate_id
                (entry_row x.aggregate_id db) now db))
      ]

  entry_row-key : (m : ℕ) (db : Tables) (y : Entry) → entry_row m db ≡ some y → y.memory_id ≡ m
  unfolding entry_row
  entry_row-key m db y h =
      let k = (find_first-some (λ (x : Entry). x.memory_id == m) db.entries y h).0 in
      (==_iff y.memory_id m).0 k

  project-wanted :
      (gone : Bool) (m : ℕ) (o : Option Entry) (now : ℕ) (db : Tables) {after : Tables}
      → ((y : Entry) → o ≡ some y → y.memory_id ≡ m)
      → project encode metadata memory_hash gone m o now db ≡ some after
      → (embedding_row m after ≡ wanted gone o now) × (after.events ≡ db.events)
  unfolding embedding_row
  project-wanted gone m none now db {after} key h =
      let e : drop_embedding encode metadata memory_hash m db ≡ after = some_injective h in
      rw (sym e) (find_first-deleted (is_embedding_of m) db.embeddings, refl)
  project-wanted true m (some y) now db {after} key h =
      let e : drop_embedding encode metadata memory_hash m db ≡ after = some_injective h in
      rw (sym e) (find_first-deleted (is_embedding_of m) db.embeddings, refl)
  project-wanted false m (some y) now db {after} key h = elim (Option-cases (encode y.memory)) [
    | inl raised ↦ absurd (
        none_not_some
          (sym (ap (λ o. store_vector encode metadata memory_hash y o now db) raised) ∙ h))
    | inr (v, given) ↦
        let p : Embedding = projection encode metadata memory_hash y v now in
        let e : put_embedding encode metadata memory_hash p db ≡ after =
          some_injective
            (sym (ap (λ o. store_vector encode metadata memory_hash y o now db) given) ∙ h) in
        rw given (
          rw (sym e) (
            ap (λ k. embedding_row k (put_embedding encode metadata memory_hash p db))
                  (sym (key y refl))
                ∙ put_embedding-row p db,
            put_embedding-events p db,
          ))
  ]

  publish_row_held :
      (e token : ℕ) (o : Option OutboxEvent) (x : OutboxEvent) (now : ℕ) (db : Tables)
      → o ≡ some x
      → x.published_at ≡ none
      → x.claim_token ≡ some token
      → publish_row encode metadata memory_hash e token o now db
        ≡ mark_published encode metadata memory_hash e now (
            project encode metadata memory_hash
              (is_deleted x.event_type)
              x.aggregate_id
              (entry_row x.aggregate_id db)
              now
              db)
  publish_row_held e token o x now db row unpublished held =
      rw (row, unpublished, held) (ground arith)

  mark_published-some :
      (e now : ℕ) (o : Option Tables) {after : Tables}
      → mark_published encode metadata memory_hash e now o ≡ some after
      → (mid : Tables) × (o ≡ some mid) × (update_events (is_event e) (close_event now) mid ≡ after)
  mark_published-some e now none h = absurd (none_not_some h)
  mark_published-some e now (some mid) h = (mid, refl, some_injective h)

  published_row :
      (e now : ℕ) (x : OutboxEvent) (db mid : Tables)
      → event_row e db ≡ some x
      → mid.events ≡ db.events
      → event_row e (update_events (is_event e) (close_event now) mid) ≡ some (close_event now x)
  unfolding event_row
  published_row e now x db mid row same =
      rw same (find_first-update (is_event e) (close_event now) db.events x (λ y h. h) row)

  publish_again :
      (e token now : ℕ) (x : OutboxEvent) (at : ℕ) (db : Tables)
      → event_row e db ≡ some x
      → x.published_at ≡ some at
      → publish_event encode metadata memory_hash e token now db ≡ some db
  unfolding publish_event
  publish_again e token now x at db row published = rw (row, published) refl

  -- Publishing an event that the worker holds, unless the encoder raises: the event's memory then has
  -- an embedding with the encoder's vector of its text, the hash of its text and the time, or none if
  -- the event is of a deletion or the memory is gone. The event is closed, and any later publishing of
  -- it changes nothing.
  pub published_once :
      (e token now : ℕ) (x : OutboxEvent) (db : Tables) {after : Tables}
      → event_row e db ≡ some x
      → x.published_at ≡ none
      → x.claim_token ≡ some token
      → publish_event encode metadata memory_hash e token now db ≡ some after
      → (embedding_row x.aggregate_id after
          ≡ wanted (is_deleted x.event_type) (entry_row x.aggregate_id db) now)
        × (event_row e after ≡ some (close_event now x))
        × ((token' now' : ℕ)
            → publish_event encode metadata memory_hash e token' now' after ≡ some after)
  published_once e token now x db {after} row unpublished held h =
      let h' : publish_row encode metadata memory_hash e token (event_row e db) now db
          ≡ some after =
        unfold publish_event in h in
      let (mid, projected, marked) =
        mark_published-some e now _
          (sym (publish_row_held e token (event_row e db) x now db row unpublished held) ∙ h') in
      let known =
        project-wanted (is_deleted x.event_type) x.aggregate_id (entry_row x.aggregate_id db) now db
          (entry_row-key x.aggregate_id db) projected in
      let closed : event_row e after ≡ some (close_event now x) =
        ap (event_row e) (sym marked) ∙ published_row e now x db mid row known.1 in
      (
        ap (embedding_row x.aggregate_id) (sym marked) ∙ unmoved e now x.aggregate_id mid ∙ known.0,
        closed,
        λ token' now'. publish_again e token' now' (close_event now x) now after closed refl,
      )

  -- An encoder that never raises: publishing never fails.
  pub publish_event_returns :
      ((t : Text) → is_some (encode t) ≡ true)
      → (e token now : ℕ) (db : Tables)
      → is_some (publish_event encode metadata memory_hash e token now db) ≡ true
  unfolding publish_event
  publish_event_returns total e token now db =
      publish_row_returns total e token (event_row e db) now db
