-- ===== src/Pricing/RoundTests.antt =====
-- Rounds of the price worker on concrete rows.
use globuy.Prelude.{
  ℕ, zero, suc, ◌+◌, ◌*◌, ◌≡◌, refl, true, false, Option, none, some, List, [], ◌∷◌, map, arith,
}
use globuy.Pricing.Schedule.{current_beijing_day_start}
use globuy.Pricing.Wishlist.{
  WishlistItem, Offer, PriceRefreshItem, PriceDb, PriceConfig, Claimed, due_rows,
}
use globuy.Pricing.Worker.{StableIds, Turn, DetailAnswer, not_configured, detail, attempt}
use globuy.Pricing.Round.{Surroundings, Summary, run_once, start_round}
use globuy.Pricing.Grown.{Grown-refl}
use globuy.Pricing.Complete.{LeavesTurn, Completes, round-Completes}
use globuy.Pricing.Reuse.{stored_price, one_question_per_offer}

abbrev ids : StableIds
ids = record { snapshot_id = λ run k. 1000 * run + k; observation_id = λ s k. 2 * s }

abbrev config : PriceConfig
config = record {
  refresh_hours = 24;
  refresh_local_hour = 3;
  batch_size = 100;
  claim_lease_minutes = 10;
}

abbrev wish : ℕ → ℕ → WishlistItem
wish w k = record {
  wishlist_item_id = w;
  offer_id = k;
  is_active = true;
  last_checked_at = none;
  next_check_at = none;
  latest_observation_id = none;
  failure_count = 0;
  last_error_code = none;
}

abbrev offer : ℕ → Offer
offer k = record {
  offer_id = k;
  platform = 1;
  source_item_id = 70 + k;
  currency = 1;
  current_price = none;
  last_seen_at = 5;
  last_observation_id = none;
}

-- Two items of one offer, and one of another.
abbrev shelf : PriceDb
shelf = record {
  items = wish 1 4 ∷ wish 2 4 ∷ wish 3 6 ∷ [];
  offers = offer 4 ∷ offer 6 ∷ [];
  observations = [];
  snapshots = [];
  runs = [];
  refreshed = [];
}

abbrev noon : ℕ
noon = 1700000000000000

abbrev calm : DetailAnswer → (PriceDb → PriceDb) → Turn
calm answer before_log = record {
  before_reuse = λ db. db;
  answer = answer;
  before_store = λ db. db;
  observed_at = noon + 5;
  before_failure = λ db. db;
  failed_at = noon + 6;
  before_log = before_log;
  logged_at = noon + 7;
}

-- The first provider answers, the others are not there.
abbrev answers : ℕ → DetailAnswer
answers zero = detail 1999 1
answers (suc n) = not_configured

abbrev around : (ℕ → PriceDb → PriceDb) → Surroundings
around before_log = record {
  before_claim = λ db. db;
  locked = λ w. false;
  turns = λ n. calm (answers n) (before_log n);
  before_end = λ db. db;
  ended_at = noon + 9;
}

abbrev quiet : Surroundings
quiet = around (λ n db. db)

abbrev what_is_logged : Option (Summary × PriceDb) → List (Option ℕ)
what_is_logged none = []
what_is_logged (some (s, after)) = map PriceRefreshItem.observation_id after.refreshed

-- The second item reuses the price of the first, the third fails.
logged_observations :
    what_is_logged (run_once ids config quiet 9 noon shelf) ≡ some 18008 ∷ some 18008 ∷ none ∷ []
unfolding run_once
logged_observations = refl

leaves_nothing : (n : ℕ) → LeavesTurn 9 (calm (answers n) (λ db. db))
leaves_nothing n = record {
  at_reuse = Grown-refl 9;
  at_store = Grown-refl 9;
  at_failure = Grown-refl 9;
  at_log = Grown-refl 9;
}

round-Completes_example :
    Completes 9
      (map
        (λ r. r.item.wishlist_item_id)
        (due_rows config quiet.locked noon (start_round ids config quiet 9 noon shelf)))
      (run_once ids config quiet 9 noon shelf)
round-Completes_example =
    round-Completes ids config quiet 9 noon (Grown-refl 9) shelf (Grown-refl 9) leaves_nothing refl

abbrev row : ℕ → ℕ → Claimed
row w k = record { item = wish w k; offer = offer k }

one_question_per_offer_example :
    (id : ℕ) × ((attempt ids config 9 noon (row 2 4) (calm not_configured (λ db. db)) none (
        stored_price ids config 9 noon
          (row 1 4)
          (calm (detail 1999 1) (λ db. db))
          1999
          1
          none
          shelf)).0.completed
      ≡ some id)
    × ((attempt ids config 9 noon (row 2 4) (calm not_configured (λ db. db)) none (
          stored_price ids config 9 noon
            (row 1 4)
            (calm (detail 1999 1) (λ db. db))
            1999
            1
            none
            shelf)).0.error_code
        ≡ none)
unfolding current_beijing_day_start
one_question_per_offer_example =
    one_question_per_offer ids config 9 noon (row 1 4) (row 2 4) (calm (detail 1999 1) (λ db. db))
      (calm not_configured (λ db. db)) none none 1999 1 shelf refl (omega arith) refl refl refl refl
