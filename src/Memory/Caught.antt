-- ===== src/Memory/Caught.antt =====
-- What a publishing of the outbox worker that returns leaves of the events and of the memories.
use globuy.Prelude.{
  ℕ, suc, ◌≤◌, ◌≡◌, refl, sym, subst, Bool, true, false, ◌||◌, not, Option, none, some, List, [],
  ◌∷◌, any, all, count_if, find_first, map, update_where, take, select_where, is_some, arith, inl,
  inr, Bool-cases, Option-cases, some_injective, none_not_some, find_first-none,
}
use globuy.Sessions.Schema.{Text}
use globuy.Memory.Consolidation.{holds}
use globuy.Memory.Outbox.{
  OutboxEvent, Entry, Embedding, Tables, OutboxConfig, is_event, is_deleted, is_waiting,
  by_creation, is_embedding_of, entry_row, update_events, close_event, hold_event, claim_each,
  claim_events, projection, put_embedding, drop_embedding, project, mark_published, publish_row,
}
use globuy.Memory.Together.{MemoryWorld, as_entry, tables_of, with_tables}
use globuy.Memory.Fresh.{is_pending_for}
use globuy.Memory.Claimed.{is_settled, is_held_by}

abbrev pub is_covered_by : List (ℕ × ℕ) → OutboxEvent → Bool
is_covered_by cs y = is_settled y || is_held_by cs y

-- The claim of an event that is not there holds nothing.
unclaimed :
    (e token : ℕ) (cs : List (ℕ × ℕ)) (events : List OutboxEvent)
    → count_if (is_event e) events ≤ 0
    → all (is_covered_by ((e, token) ∷ cs)) events ≡ true
    → all (is_covered_by cs) events ≡ true
unclaimed e token cs [] none_there h = refl
unclaimed e token cs (y ∷ events) none_there h = ground (arith, unclaimed e token cs events)

-- Nor does a claim that was lost, or whose event is published.
lost_claim :
    (e token : ℕ) (cs : List (ℕ × ℕ)) (x : OutboxEvent) (events : List OutboxEvent)
    → find_first (is_event e) events ≡ some x
    → count_if (is_event e) events ≤ 1
    → (is_some x.published_at || not (holds token x.claim_token)) ≡ true
    → all (is_covered_by ((e, token) ∷ cs)) events ≡ true
    → all (is_covered_by cs) events ≡ true
lost_claim e token cs x [] found one late h = refl
lost_claim e token cs x (y ∷ events) found one late h = elim (Bool-cases (is_event e y)) [
  | inl here ↦
      let same : y ≡ x = some_injective (ground arith) in
      let late_y : (is_some y.published_at || not (holds token y.claim_token)) ≡ true =
        subst (λ z. (is_some z.published_at || not (holds token z.claim_token)) ≡ true) (sym same)
          late in
      let rest = unclaimed e token cs events (ground arith) (ground arith) in ground (arith, rest)
  | inr there ↦ ground (arith, lost_claim e token cs x events)
]

closed_claim :
    (e token now : ℕ) (cs : List (ℕ × ℕ)) (events : List OutboxEvent)
    → all (is_covered_by ((e, token) ∷ cs)) events ≡ true
    → all (is_covered_by cs) (update_where (is_event e) (close_event now) events) ≡ true
closed_claim e token now cs [] h = refl
closed_claim e token now cs (y ∷ events) h = ground (arith, closed_claim e token now cs events)

-- Where everything is settled, no memory has an event to be published.
pub nothing_pending :
    (m : ℕ) (events : List OutboxEvent)
    → all (is_covered_by []) events ≡ true
    → any (is_pending_for m) events ≡ false
nothing_pending m [] h = refl
nothing_pending m (y ∷ events) h = ground (arith, nothing_pending m events)

claim_each-entries :
    (now token : ℕ) (xs : List OutboxEvent) (db : Tables)
    → (claim_each now token xs db).1.entries ≡ db.entries
claim_each-entries now token [] db = refl
claim_each-entries now token (x ∷ xs) db =
    claim_each-entries now (suc token) xs
      (update_events (is_event x.event_id) (hold_event now token) db)

pub claim_events-entries :
    (cfg : OutboxConfig) (now token : ℕ) (db : Tables)
    → (claim_events cfg now token db).1.entries ≡ db.entries
unfolding claim_events
claim_events-entries cfg now token db =
    claim_each-entries now token
      (take cfg.batch_size (by_creation (select_where (is_waiting cfg now) db.events))) db

-- The tables with the entries that they had.
pub again_tables :
    (w : MemoryWorld) (t : Tables)
    → t.entries ≡ map as_entry w.memories.entries
    → t ≡ tables_of (with_tables w t)
again_tables w t h = ground (arith, h)

module _ (encode : Text → Option (List ℕ)) (metadata : ℕ) (hash : Text → ℕ) where
  put_rest :
      (p : Embedding) (db : Tables)
      → ((put_embedding encode metadata hash p db).events ≡ db.events)
        × ((put_embedding encode metadata hash p db).entries ≡ db.entries)
  put_rest p db = elim (Bool-cases (any (is_embedding_of p.memory_id) db.embeddings)) [
    | inl there ↦ rw there (refl, refl)
    | inr missing ↦ rw missing (refl, refl)
  ]

  project_rest :
      (gone : Bool) (m : ℕ) (o : Option Entry) (now : ℕ) (db : Tables) {mid : Tables}
      → project encode metadata hash gone m o now db ≡ some mid
      → (mid.events ≡ db.events) × (mid.entries ≡ db.entries)
  project_rest gone m none now db {mid} h =
      let e : drop_embedding encode metadata hash m db ≡ mid = some_injective h in
      rw (sym e) (refl, refl)
  project_rest true m (some y) now db {mid} h =
      let e : drop_embedding encode metadata hash m db ≡ mid = some_injective h in
      rw (sym e) (refl, refl)
  project_rest false m (some y) now db {mid} h = elim (Option-cases (encode y.memory)) [
    | inl raised ↦ let failed = rw raised at h in absurd (none_not_some failed)
    | inr (v, given) ↦
        let stored = rw given at h in
        let e : put_embedding encode metadata hash (projection encode metadata hash y v now) db
            ≡ mid =
          some_injective stored in
        rw (sym e) (put_rest (projection encode metadata hash y v now) db)
  ]

  -- What a publishing that returns leaves of the events, with one claim less.
  mark_rest :
      (e token now : ℕ) (cs : List (ℕ × ℕ)) (o : Option Tables) (db : Tables) {t : Tables}
      → ((mid : Tables) → o ≡ some mid → (mid.events ≡ db.events) × (mid.entries ≡ db.entries))
      → all (is_covered_by ((e, token) ∷ cs)) db.events ≡ true
      → mark_published encode metadata hash e now o ≡ some t
      → (all (is_covered_by cs) t.events ≡ true) × (t.entries ≡ db.entries)
  mark_rest e token now cs none db {t} keeps h k = absurd (none_not_some k)
  mark_rest e token now cs (some mid) db {t} keeps h k =
      let (events, entries) = keeps mid refl in
      let marked : update_events (is_event e) (close_event now) mid ≡ t = some_injective k in
      rw (sym marked) (rw (events, entries) (closed_claim e token now cs db.events h, refl))

  pub publish_row_rest :
      (e token now : ℕ) (cs : List (ℕ × ℕ)) (o : Option OutboxEvent) (db : Tables) {t : Tables}
      → find_first (is_event e) db.events ≡ o
      → count_if (is_event e) db.events ≤ 1
      → all (is_covered_by ((e, token) ∷ cs)) db.events ≡ true
      → publish_row encode metadata hash e token o now db ≡ some t
      → (all (is_covered_by cs) t.events ≡ true) × (t.entries ≡ db.entries)
  publish_row_rest e token now cs none db {t} found one h k =
      let same : db ≡ t = some_injective k in
      rw (sym same) (
        unclaimed e token cs db.events (omega (arith, find_first-none (is_event e) db.events found))
            h,
        refl,
      )
  publish_row_rest e token now cs (some x) db {t} found one h k =
      elim (Bool-cases (is_some x.published_at || not (holds token x.claim_token))) [
        | inl late ↦
            let kept = rw late at k in
            let same : db ≡ t = some_injective kept in
            rw (sym same) (lost_claim e token cs x db.events found one late h, refl)
        | inr held ↦
            let done = rw held at k in
            mark_rest e token now cs _ db
              (λ mid g.
                project_rest (is_deleted x.event_type) x.aggregate_id (entry_row x.aggregate_id db)
                  now db g)
              h done
      ]
