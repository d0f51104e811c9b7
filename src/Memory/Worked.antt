-- ===== src/Memory/Worked.antt =====
-- A transaction of the outbox worker leaves every memory fresh or with an event to be published.
use globuy.Prelude.{
  ℕ, suc, ◌≡◌, refl, ap, ◌∙◌, Bool, ◌||◌, not, Option, none, some, List, [], ◌∷◌, ◌==◌, ltb, any,
  all, count_if, update_where, is_some, arith, inl, inr, Bool-cases, all-impl, any-update, take,
  select_where, count_if-update,
}
use globuy.Sessions.Schema.{Text}
use globuy.Memory.Outbox.{
  OutboxEvent, is_memory, is_deleted, is_event, Tables, OutboxConfig, claim_events,
}
use globuy.Memory.Together.{MemoryWorld, tables_of, with_tables}
use globuy.Memory.Fresh.{is_pending_for, is_fresh, Fresh}
use globuy.Memory.Outbox.{
  by_creation, is_waiting, hold_event, retry_event, update_events, claim_each, fail_event_row,
  requeue_event_row,
}
use globuy.Memory.Consolidation.{holds}

-- Events that differ in what the worker notes of its attempts.
pub record SameEvents (before after : List OutboxEvent) : Type 0 where
  pub pending : (m : ℕ) → any (is_pending_for m) after ≡ any (is_pending_for m) before
  pub single : (e : ℕ) → count_if (is_event e) after ≡ count_if (is_event e) before
  pub below : (n : ℕ) → all (λ e. ltb e.event_id n) after ≡ all (λ e. ltb e.event_id n) before
  pub kinds :
      all (λ e. not (is_deleted e.event_type)) after
      ≡ all (λ e. not (is_deleted e.event_type)) before

pub all-update_same :
    (q p : OutboxEvent → Bool) (f : OutboxEvent → OutboxEvent) (xs : List OutboxEvent)
    → ((x : OutboxEvent) → q (f x) ≡ q x)
    → all q (update_where p f xs) ≡ all q xs
all-update_same q p f [] h = refl
all-update_same q p f (x ∷ xs) h = ground (arith, h x, all-update_same q p f xs h)

-- A change that leaves the identifier and the kind of an event, and keeps it from being published.
SameEvents-update :
    (p : OutboxEvent → Bool) (f : OutboxEvent → OutboxEvent) (xs : List OutboxEvent)
    → ((m : ℕ) (x : OutboxEvent) → is_pending_for m (f x) ≡ is_pending_for m x)
    → ((x : OutboxEvent) → (f x).event_id ≡ x.event_id)
    → ((x : OutboxEvent) → (f x).event_type ≡ x.event_type)
    → SameEvents xs (update_where p f xs)
SameEvents-update p f xs same same_id same_kind = record {
  pending = λ m. any-update (is_pending_for m) p f xs (same m);
  single = λ e. count_if-update (is_event e) p f xs (λ x _. ap (λ k. k == e) (same_id x));
  below = λ n. all-update_same _ p f xs (λ x. ap (λ k. ltb k n) (same_id x));
  kinds = all-update_same _ p f xs (λ x. ap (λ k. not (is_deleted k)) (same_kind x));
}

-- The tables of a worker's transaction that embeds nothing.
abbrev pub SameTables : Tables → Tables → Type 0
SameTables db after = SameEvents db.events after.events × (after.embeddings ≡ db.embeddings)

pub SameTables-refl : (db : Tables) → SameTables db db
SameTables-refl db =
    (record { pending = λ m. refl; single = λ e. refl; below = λ n. refl; kinds = refl }, refl)

SameTables-trans : (a b c : Tables) → SameTables a b → SameTables b c → SameTables a c
SameTables-trans a b c (s, e) (t, g) = (
  record {
    pending = λ m. t.pending m ∙ s.pending m;
    single = λ k. t.single k ∙ s.single k;
    below = λ n. t.below n ∙ s.below n;
    kinds = t.kinds ∙ s.kinds;
  },
  g ∙ e,
)

claim_each-SameTables :
    (now token : ℕ) (xs : List OutboxEvent) (db : Tables)
    → SameTables db (claim_each now token xs db).1
claim_each-SameTables now token [] db = SameTables-refl db
claim_each-SameTables now token (x ∷ xs) db =
    let held = update_events (is_event x.event_id) (hold_event now token) db in
    SameTables-trans db held (claim_each now (suc token) xs held).1
      (
        SameEvents-update (is_event x.event_id) (hold_event now token) db.events (λ m y. refl)
            (λ y. refl) (λ y. refl),
        refl,
      )
      (claim_each-SameTables now (suc token) xs held)

pub claim_events-SameTables :
    (cfg : OutboxConfig) (now token : ℕ) (db : Tables)
    → SameTables db (claim_events cfg now token db).1
unfolding claim_events
claim_events-SameTables cfg now token db =
    claim_each-SameTables now token
      (take cfg.batch_size (by_creation (select_where (is_waiting cfg now) db.events))) db

pub fail_row-SameTables :
    (cfg : OutboxConfig) (e token now : ℕ) (o : Option OutboxEvent) (db : Tables)
    → SameTables db (fail_event_row cfg e token now o db)
fail_row-SameTables cfg e token now none db = SameTables-refl db
fail_row-SameTables cfg e token now (some x) db = elim (Bool-cases (holds token x.claim_token)) [
  | inl held ↦ rw held (
    SameEvents-update (is_event e) (retry_event cfg now) db.events (λ m y. refl) (λ y. refl)
        (λ y. refl),
    refl,
  )
  | inr lost ↦ rw lost (SameTables-refl db)
]

pub requeue_row-SameTables :
    (e now : ℕ) (o : Option OutboxEvent) (db : Tables)
    → SameTables db (requeue_event_row e now o db).1
requeue_row-SameTables e now none db = SameTables-refl db
requeue_row-SameTables e now (some x) db =
    elim (Bool-cases (not (is_memory x.aggregate_type) || is_some x.published_at)) [
      | inl unfit ↦ rw unfit (SameTables-refl db)
      | inr fit ↦
          rw fit
            (SameEvents-update (is_event e) _ db.events (λ m y. refl) (λ y. refl) (λ y. refl), refl)
    ]

module _ (encode : Text → Option (List ℕ)) (hash : Text → ℕ) where
  pub same-Fresh :
      (w : MemoryWorld) (t : Tables)
      → Fresh encode hash w
      → SameTables (tables_of w) t
      → Fresh encode hash (with_tables w t)
  same-Fresh w t f (s, e) = record {
    entries_unique = f.entries_unique;
    no_conflict = f.no_conflict;
    all_fresh =
        all-impl (is_fresh encode hash w.events w.embeddings)
          (is_fresh encode hash t.events t.embeddings) w.memories.entries
          (λ x h. rw (s.pending x.memory_id, e) h) f.all_fresh;
    single_events = λ k. rw (s.single k) (f.single_events k);
    ids_below = s.below w.next_event ∙ f.ids_below;
    no_deletions = s.kinds ∙ f.no_deletions;
  }
