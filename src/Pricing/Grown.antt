-- ===== src/Pricing/Grown.antt =====
-- What the steps of a price round leave in place: the items, the offers, the row of the run and its log.
use globuy.Prelude.{
  ℕ, ◌+◌, ◌*◌, ◌≡◌, refl, ◌∙◌, Bool, true, false, Option, none, some, List, ◌==◌, any, select_where,
  update_where, inl, inr, arith, Bool-cases, any-update,
}
use globuy.Pricing.Wishlist.{
  WishlistItem, OfferObservation, PriceRefreshItem, PriceDb, PriceConfig, Claimed, RefreshStatus,
  succeeded, failed, is_item, is_offer, is_run, is_claimed, lease_rows, is_of_today, latest, minute,
}
use globuy.Pricing.Worker.{
  StableIds, Turn, DetailAnswer, Outcome, not_configured, raises, negative_price, detail, see_again,
  see_price, see_check, is_present, reuse_found, reuse_today_observation, observation, is_stored,
  store_detail, ask, after_reuse, attempt,
}
use globuy.Pricing.Round.{note_failure, after_failure}

abbrev pub is_logged_by : ℕ → PriceRefreshItem → Bool
is_logged_by run x = x.refresh_run_id == run

abbrev pub log_of : ℕ → PriceDb → List PriceRefreshItem
log_of run db = select_where (is_logged_by run) db.refreshed

pub record Grown (run : ℕ) (db after : PriceDb) : Type 0 where
  pub items_kept : (w : ℕ) → any (is_item w) db.items ≡ true → any (is_item w) after.items ≡ true
  pub offers_kept :
      (k : ℕ) → any (is_offer k) db.offers ≡ true → any (is_offer k) after.offers ≡ true
  pub run_kept : any (is_run run) db.runs ≡ true → any (is_run run) after.runs ≡ true
  pub log_kept : log_of run after ≡ log_of run db

-- Other tasks delete no item, no offer and no row of this run, and write none of its log.
abbrev pub LeavesRows : ℕ → (PriceDb → PriceDb) → Type 0
LeavesRows run f = (db : PriceDb) → Grown run db (f db)

module _ (run : ℕ) where
  pub Grown-refl : (db : PriceDb) → Grown run db db
  Grown-refl db = record {
    items_kept = λ w h. h;
    offers_kept = λ k h. h;
    run_kept = λ h. h;
    log_kept = refl;
  }

  pub Grown-trans : {a b c : PriceDb} → Grown run a b → Grown run b c → Grown run a c
  Grown-trans g h = record {
    items_kept = λ w k. h.items_kept w (g.items_kept w k);
    offers_kept = λ n k. h.offers_kept n (g.offers_kept n k);
    run_kept = λ k. h.run_kept (g.run_kept k);
    log_kept = h.log_kept ∙ g.log_kept;
  }

  pub Grown-items :
      (db : PriceDb) (p : WishlistItem → Bool) (f : WishlistItem → WishlistItem)
      → ((x : WishlistItem) → (f x).wishlist_item_id ≡ x.wishlist_item_id)
      → Grown run db (record db { items = update_where p f db.items })
  Grown-items db p f same = record {
    items_kept = λ w h. any-update (is_item w) p f db.items (λ x. rw (same x) refl) ∙ h;
    offers_kept = λ k h. h;
    run_kept = λ h. h;
    log_kept = refl;
  }

  Grown-see :
      (r : Claimed) (b : OfferObservation) (next : ℕ) (db : PriceDb)
      → Grown run db (see_again r b next db)
  Grown-see r b next db = record {
    items_kept = λ w h. any-update (is_item w) _ (see_check b next) db.items (λ x. refl) ∙ h;
    offers_kept = λ k h. any-update (is_offer k) _ (see_price b) db.offers (λ x. refl) ∙ h;
    run_kept = λ h. h;
    log_kept = refl;
  }

  pub Grown-lease :
      (cfg : PriceConfig) (now : ℕ) (rows : List Claimed) (db : PriceDb)
      → Grown run db (lease_rows cfg now rows db)
  unfolding lease_rows
  Grown-lease cfg now rows db =
      Grown-items db (is_claimed rows)
        (λ x. record x { next_check_at = some (now + cfg.claim_lease_minutes * minute) })
        (λ x. refl)

-- A row of the log that says what was done.
abbrev pub is_true : RefreshStatus → Option ℕ → Option ℕ → Bool
is_true succeeded none (some id) = true
is_true failed (some code) none = true
is_true _ _ _ = false

-- What an attempt comes to while the rows are there.
abbrev pub Attempted : ℕ → PriceDb → Outcome × PriceDb → Type 0
Attempted run db (o, after) =
    (is_true o.status o.error_code o.completed ≡ true) × Grown run db after

pub Attempted-Grown :
    (run : ℕ) (db : PriceDb) (x : Outcome × PriceDb) → Attempted run db x → Grown run db x.1
Attempted-Grown run db (o, after) (honest, g) = g

abbrev Reused : ℕ → PriceDb → Option ℕ × PriceDb → Type 0
Reused run db (o, after) = Grown run db after

abbrev pub Present : Claimed → PriceDb → Type 0
Present r db = is_present r db ≡ true

pub Present-Grown :
    (run : ℕ) (r : Claimed) {db after : PriceDb}
    → Grown run db after
    → Present r db
    → Present r after
Present-Grown run r g h =
    ground (arith, g.offers_kept r.offer.offer_id, g.items_kept r.item.wishlist_item_id)

module _ (ids : StableIds) (cfg : PriceConfig) (run now : ℕ) where
  reuse_found-Reused :
      (r : Claimed) (o : Option OfferObservation) (db : PriceDb)
      → Reused run db (reuse_found ids cfg run now r o db)
  reuse_found-Reused r none db = Grown-refl run db
  reuse_found-Reused r (some b) db = elim (Bool-cases (is_present r db)) [
    | inl there ↦ rw there (Grown-see run r b _ db)
    | inr gone ↦ rw gone (Grown-refl run db)
  ]

  pub store_detail-Attempted :
      (r : Claimed) (b : OfferObservation) (last : Option ℕ) (db : PriceDb)
      → Present r db
      → Attempted run db (store_detail ids cfg run now r b last db)
  unfolding store_detail
  store_detail-Attempted r b last db there =
      rw there (elim (Bool-cases (is_stored ids cfg run now b db)) [
        | inl used ↦ rw used (refl, Grown-refl run db)
        | inr free ↦ rw free (
          refl,
          record {
            items_kept = λ w h. any-update (is_item w) _ (see_check b _) db.items (λ x. refl) ∙ h;
            offers_kept = λ k h. any-update (is_offer k) _ (see_price b) db.offers (λ x. refl) ∙ h;
            run_kept = λ h. h;
            log_kept = refl;
          },
        )
      ])

  -- What is shown of a step from `db` is shown from where the tables were before.
  Attempted-from :
      {before db : PriceDb} (x : Outcome × PriceDb)
      → Grown run before db
      → Attempted run db x
      → Attempted run before x
  Attempted-from (o, after) g (honest, h) = (honest, Grown-trans run g h)

  ask-Attempted :
      (r : Claimed) (t : Turn) (answer : DetailAnswer) (last : Option ℕ) (db : PriceDb)
      → LeavesRows run t.before_store
      → Present r db
      → Attempted run db (ask ids cfg run now r t answer last db)
  unfolding ask
  ask-Attempted r t not_configured last db k there = (refl, Grown-refl run db)
  ask-Attempted r t raises last db k there = (refl, Grown-refl run db)
  ask-Attempted r t negative_price last db k there = (refl, Grown-refl run db)
  ask-Attempted r t (detail price currency) last db k there =
      let seen = t.before_store db in
      Attempted-from (store_detail ids cfg run now r _ last seen) (k db) (
        store_detail-Attempted r (observation ids cfg run now r price currency t.observed_at) last
          seen (Present-Grown run r (k db) there))

  after_reuse-Attempted :
      (r : Claimed) (t : Turn) (last : Option ℕ) (before : PriceDb) (x : Option ℕ × PriceDb)
      → LeavesRows run t.before_store
      → Present r before
      → Reused run before x
      → Attempted run before (after_reuse ids cfg run now r t last x)
  after_reuse-Attempted r t last before (some id, db) k there g = (refl, g)
  after_reuse-Attempted r t last before (none, db) k there g =
      Attempted-from (ask ids cfg run now r t t.answer last db) g
        (ask-Attempted r t t.answer last db k (Present-Grown run r g there))

  Reused-from :
      {before db : PriceDb} (x : Option ℕ × PriceDb)
      → Grown run before db
      → Reused run db x
      → Reused run before x
  Reused-from (o, after) g h = Grown-trans run g h

  pub attempt-Attempted :
      (r : Claimed) (t : Turn) (last : Option ℕ) (db : PriceDb)
      → LeavesRows run t.before_reuse
      → LeavesRows run t.before_store
      → Present r db
      → Attempted run db (attempt ids cfg run now r t last db)
  unfolding attempt reuse_today_observation
  attempt-Attempted r t last db j k there =
      let seen = t.before_reuse db in
      after_reuse-Attempted r t last db _ k there (
        Reused-from
          (reuse_found ids cfg run now r
            (latest (is_of_today r.offer.offer_id now seen) seen.observations) seen)
          (j db) (reuse_found-Reused r _ seen))

pub after_failure-Grown :
    (run : ℕ) (cfg : PriceConfig) (r : Claimed) (t : Turn) (o : Option ℕ) (db : PriceDb)
    → LeavesRows run t.before_failure
    → Grown run db (after_failure cfg r t o db)
unfolding note_failure
after_failure-Grown run cfg r t none db k = Grown-refl run db
after_failure-Grown run cfg r t (some code) db k = Grown-trans run (k db) (
    Grown-items run (t.before_failure db) (is_item r.item.wishlist_item_id)
      (note_failure cfg code t.failed_at) (λ x. refl))
