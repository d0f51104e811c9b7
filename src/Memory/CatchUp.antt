-- ===== src/Memory/CatchUp.antt =====
-- A round of the outbox worker, behind whatever the memory service and other rounds did.
use globuy.Prelude.{
  ℕ, ◌+◌, ◌≤◌, ◌≡◌, refl, sym, ap, ◌∙◌, subst, Bool, true, ◌||◌, Option, some, List, [], ◌∷◌, any,
  all, length, select_where, is_some, arith, inl, inr, Option-cases, all-impl, false_not_true,
}
use globuy.Sessions.Schema.{Text}
use globuy.Memory.Entries.{MemoryEntry}
use globuy.Memory.Outbox.{Tables, OutboxConfig, is_waiting, event_row, claim_events, publish_event}
use globuy.Memory.OutboxRound.{RoundCount, publish_each, run_outbox, or_failed, tally}
use globuy.Memory.Together.{MemoryWorld, tables_of, with_tables}
use globuy.Memory.Fresh.{is_current, is_fresh, Fresh}
use globuy.Memory.Worked.{same-Fresh, claim_events-SameTables}
use globuy.Memory.Projection.{publish_event_returns}
use globuy.Memory.Behind.{publish_row-Fresh}
use globuy.Memory.Claimed.{is_settled, claimed-is_held}
use globuy.Memory.Caught.{
  is_covered_by, nothing_pending, claim_events-entries, again_tables, publish_row_rest,
}

module _ (encode : Text → Option (List ℕ)) (metadata : ℕ) (hash : Text → ℕ) where
  -- Each memory is embedded with the vector and the hash of its text.
  abbrev pub is_embedded : List MemoryEntry → Tables → Bool
  is_embedded entries t =
      all (λ x. any (is_current encode hash x.memory_id x.memory) t.embeddings) entries

  settled-is_embedded :
      (w : MemoryWorld)
      → Fresh encode hash w
      → all (is_covered_by []) w.events ≡ true
      → is_embedded w.memories.entries (tables_of w) ≡ true
  settled-is_embedded w f settled =
      all-impl (is_fresh encode hash w.events w.embeddings)
        (λ x. any (is_current encode hash x.memory_id x.memory) w.embeddings) w.memories.entries
        (λ x h. ground (arith, nothing_pending x.memory_id w.events settled)) f.all_fresh

  publish_event-Fresh :
      (e token now : ℕ) (cs : List (ℕ × ℕ)) (w : MemoryWorld) (t : Tables)
      → Fresh encode hash w
      → all (is_covered_by ((e, token) ∷ cs)) w.events ≡ true
      → publish_event encode metadata hash e token now (tables_of w) ≡ some t
      → Fresh encode hash (with_tables w t)
        × (all (is_covered_by cs) t.events ≡ true)
        × (t ≡ tables_of (with_tables w t))
  unfolding publish_event event_row
  publish_event-Fresh e token now cs w t f held given =
      let fresh =
        publish_row-Fresh encode metadata hash e token now (event_row e (tables_of w)) w f refl in
      let fresh_after = rw given at fresh in
      let (events, entries) =
        publish_row_rest encode metadata hash e token now cs (event_row e (tables_of w))
          (tables_of w) refl (f.single_events e) held given in
      (fresh_after, events, again_tables w t entries)

  module _ (total : (t : Text) → is_some (encode t) ≡ true) (cfg : OutboxConfig) where
    -- The claims are published without a failure, and the memories are embedded behind them.
    abbrev Catches : List (ℕ × ℕ) → ℕ → RoundCount → MemoryWorld → Tables → Type 0
    Catches cs now n w db =
        ((publish_each encode metadata hash cfg cs now n db).0.failed ≡ n.failed)
        × (is_embedded w.memories.entries (publish_each encode metadata hash cfg cs now n db).1
            ≡ true)

    publish_each-next :
        (e token now : ℕ) (cs : List (ℕ × ℕ)) (n : RoundCount) (db t : Tables)
        → publish_event encode metadata hash e token now db ≡ some t
        → publish_each encode metadata hash cfg ((e, token) ∷ cs) now n db
          ≡ publish_each encode metadata hash cfg cs now
              (record n { published = n.published + 1 })
              t
    unfolding publish_each
    publish_each-next e token now cs n db t given =
        ap
          (λ o.
            let (published, after) = or_failed encode metadata hash cfg e token now db o in
            publish_each encode metadata hash cfg cs now
              (tally encode metadata hash cfg published n) after)
          given

    each_embeds :
        (cs : List (ℕ × ℕ)) (now : ℕ) (n : RoundCount) (w : MemoryWorld)
        → Fresh encode hash w
        → all (is_covered_by cs) w.events ≡ true
        → Catches cs now n w (tables_of w)
    unfolding publish_each
    each_embeds [] now n w f held = (refl, settled-is_embedded w f held)
    each_embeds ((e, token) ∷ cs) now n w f held =
        elim (Option-cases (publish_event encode metadata hash e token now (tables_of w))) [
          | inl raised ↦ absurd (
              false_not_true (
                sym (ap is_some raised)
                ∙ publish_event_returns encode metadata hash total e token now (tables_of w)))
          | inr (t, given) ↦
              let (fresh, left, same) = publish_event-Fresh e token now cs w t f held given in
              rw (publish_each-next e token now cs n (tables_of w) t given) (
                subst (Catches cs now (record n { published = n.published + 1 }) w) (sym same) (
                  each_embeds cs now (record n { published = n.published + 1 }) (with_tables w t)
                    fresh left))
        ]

    -- Where the world has what no_memory_left_behind keeps, the encoder raises nothing, and every
    -- event of a memory that is still to be published may be claimed and fits in the batch, a round of
    -- the outbox worker fails at no event, and behind it each memory is embedded with the vector and
    -- the hash of its text.
    pub memories_catch_up :
        (token now later : ℕ) (w : MemoryWorld)
        → Fresh encode hash w
        → all (λ y. is_settled y || is_waiting cfg now y) w.events ≡ true
        → length (select_where (is_waiting cfg now) w.events) ≤ cfg.batch_size
        → let (count, t) = run_outbox encode metadata hash cfg token now later (tables_of w) in
          (count.failed ≡ 0) × (is_embedded w.memories.entries t ≡ true)
    unfolding run_outbox
    memories_catch_up token now later w f ready fits =
        let held = (claim_events cfg now token (tables_of w)).1 in
        let fresh : Fresh encode hash (with_tables w held) =
          same-Fresh encode hash w held f (claim_events-SameTables cfg now token (tables_of w)) in
        let same : held ≡ tables_of (with_tables w held) =
          again_tables w held (claim_events-entries cfg now token (tables_of w)) in
        let start : RoundCount = record { published = 0; failed = 0 } in
        let claims = (claim_events cfg now token (tables_of w)).0 in
        subst (Catches claims later start w) (sym same) (
          each_embeds claims later start (with_tables w held) fresh
            (claimed-is_held cfg now token (tables_of w) ready fits))
