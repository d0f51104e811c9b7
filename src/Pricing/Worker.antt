-- ===== src/Pricing/Worker.antt =====
-- PriceRefreshWorker.run_once of app/products/price_worker.py. The identifiers that hash others, the
-- answers of the providers, the clock, and what other tasks do to the tables before each transaction are
-- arguments. `none` is an exception that leaves run_once.
use globuy.Prelude.{
  ℕ, Bool, ◌&&◌, ◌||◌, Option, none, some, [], ◌∷◌, ◌++◌, ◌==◌, any, update_where, if◌then◌else◌,
}
use globuy.Pricing.Schedule.{next_daily_refresh}
use globuy.Pricing.Wishlist.{
  WishlistItem, Offer, OfferObservation, SourceSnapshot, RefreshStatus, PriceDb, PriceConfig,
  Claimed, product_detail_adapter, succeeded, failed, is_item, is_offer, is_of_today, latest,
}

-- `stable_id`, with the refresh run and the offer in the key.
pub record StableIds : Type 0 where
  pub snapshot_id : (run offer : ℕ) → ℕ
  pub observation_id : (snapshot offer : ℕ) → ℕ

-- What a provider's get_detail comes to.
pub data DetailAnswer : Type 0 where
  not_configured raises negative_price : DetailAnswer
  detail : (price currency : ℕ) → DetailAnswer

-- One item's share of what happens around the worker.
pub record Turn : Type 0 where
  pub before_reuse : PriceDb → PriceDb
  pub answer : DetailAnswer
  pub before_store : PriceDb → PriceDb
  pub observed_at : ℕ
  pub before_failure : PriceDb → PriceDb
  pub failed_at : ℕ
  pub before_log : PriceDb → PriceDb
  pub logged_at : ℕ

abbrev pub provider_unavailable : ℕ
provider_unavailable = 1

abbrev pub provider_error : ℕ
provider_error = 2

-- The variables of the loop's body behind the try statement; `last` is `observation_id`, unset at first.
pub record Outcome : Type 0 where
  pub status : RefreshStatus
  pub error_code : Option ℕ
  pub completed : Option ℕ
  pub last : Option ℕ

pub record Tally : Type 0 where
  pub db : PriceDb
  pub last : Option ℕ
  pub success : ℕ
  pub failure : ℕ

abbrev pub see_price : OfferObservation → Offer → Offer
see_price b k = record k {
  current_price = b.price;
  currency = b.currency;
  last_seen_at = b.observed_at;
  last_observation_id = some b.observation_id;
}

abbrev pub see_check : OfferObservation → ℕ → WishlistItem → WishlistItem
see_check b next x = record x {
  last_checked_at = some b.observed_at;
  latest_observation_id = some b.observation_id;
  failure_count = 0;
  last_error_code = none;
  next_check_at = some next;
}

abbrev pub see_again : Claimed → OfferObservation → ℕ → PriceDb → PriceDb
see_again r b next db = record db {
  offers = update_where (is_offer r.offer.offer_id) (see_price b) db.offers;
  items = update_where (is_item r.item.wishlist_item_id) (see_check b next) db.items;
}

-- Both rows are still there.
abbrev pub is_present : Claimed → PriceDb → Bool
is_present r db =
    any (is_offer r.offer.offer_id) db.offers && any (is_item r.item.wishlist_item_id) db.items

module _ (ids : StableIds) (cfg : PriceConfig) (run now : ℕ) where
  abbrev pub reuse_found : Claimed → Option OfferObservation → PriceDb → Option ℕ × PriceDb
  reuse_found r none db = (none, db)
  reuse_found r (some b) db =
      if is_present r db
      then (some b.observation_id, see_again r b (next_daily_refresh cfg.refresh_local_hour now) db)
      else (none, db)

  unfoldable pub reuse_today_observation : Claimed → PriceDb → Option ℕ × PriceDb
  unfolding next_daily_refresh is_of_today
  reuse_today_observation r db =
      reuse_found r (latest (is_of_today r.offer.offer_id now db) db.observations) db

  unfoldable pub observation : Claimed → (price currency observed_at : ℕ) → OfferObservation
  observation r price currency observed_at =
      let snapshot = ids.snapshot_id run r.offer.offer_id in
      record {
        observation_id = ids.observation_id snapshot r.offer.offer_id;
        offer_id = r.offer.offer_id;
        snapshot_id = snapshot;
        observed_at = observed_at;
        provider_record_key = r.offer.source_item_id;
        price = some price;
        currency = currency;
      }

  abbrev pub snapshot : Claimed → ℕ → SourceSnapshot
  snapshot r observed_at = record {
    snapshot_id = ids.snapshot_id run r.offer.offer_id;
    provider = product_detail_adapter;
    platform = r.offer.platform;
    captured_at = observed_at;
    request_key = r.offer.source_item_id;
    refresh_run_id = some run;
  }

  abbrev pub failing : ℕ → Option ℕ → Outcome
  failing code last = record {
    status = failed;
    error_code = some code;
    completed = none;
    last = last;
  }

  abbrev pub succeeding : ℕ → Option ℕ → Outcome
  succeeding id last = record {
    status = succeeded;
    error_code = none;
    completed = some id;
    last = last;
  }

  -- Where a row has gone, nothing is stored, and `observation_id` is what an earlier turn has left.
  abbrev pub unstored : Option ℕ → Outcome
  unstored none = record {
    status = succeeded;
    error_code = some provider_error;
    completed = none;
    last = none;
  }
  unstored (some id) = succeeding id (some id)

  abbrev pub is_stored : OfferObservation → PriceDb → Bool
  is_stored b db =
      any (λ s. s.snapshot_id == b.snapshot_id) db.snapshots
      || any (λ c. c.observation_id == b.observation_id) db.observations

  -- The transaction behind the provider's answer; an identifier that is in use rolls it back.
  unfoldable pub store_detail : Claimed → OfferObservation → Option ℕ → PriceDb → Outcome × PriceDb
  unfolding next_daily_refresh
  store_detail r b last db =
      if is_present r db
      then (if is_stored b db then (failing provider_error last, db) else (
        succeeding b.observation_id (some b.observation_id),
        see_again r b (next_daily_refresh cfg.refresh_local_hour b.observed_at) (record db {
          snapshots = db.snapshots ++ snapshot r b.observed_at ∷ [];
          observations = db.observations ++ b ∷ [];
        }),
      ))
      else (unstored last, db)

  unfoldable pub ask : Claimed → Turn → DetailAnswer → Option ℕ → PriceDb → Outcome × PriceDb
  unfolding store_detail observation
  ask r t not_configured last db = (failing provider_unavailable last, db)
  ask r t raises last db = (failing provider_error last, db)
  ask r t negative_price last db = (failing provider_error last, db)
  ask r t (detail price currency) last db =
      store_detail r (observation r price currency t.observed_at) last (t.before_store db)

  abbrev pub after_reuse : Claimed → Turn → Option ℕ → Option ℕ × PriceDb → Outcome × PriceDb
  after_reuse r t last (some id, db) = (succeeding id last, db)
  after_reuse r t last (none, db) = ask r t t.answer last db

  unfoldable pub attempt : Claimed → Turn → Option ℕ → PriceDb → Outcome × PriceDb
  unfolding reuse_today_observation ask
  attempt r t last db = after_reuse r t last (reuse_today_observation r (t.before_reuse db))
