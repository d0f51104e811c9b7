-- ===== src/Pricing/Round.antt =====
-- One round of PriceRefreshWorker (app/products/price_worker.py): the failures, the log of the items, and
-- run_once around them.
use globuy.Prelude.{
  ℕ, ◌+◌, ◌*◌, ◌^◌, min, Bool, ◌&&◌, Option, none, some, List, [], ◌∷◌, ◌++◌, ◌==◌, length, any,
  update_where, if◌then◌else◌,
}
use globuy.Pricing.Schedule.{hour}
use globuy.Pricing.Wishlist.{
  WishlistItem, PriceRefreshRun, PriceRefreshItem, PriceDb, PriceConfig, Claimed, running,
  succeeded, partial, is_item, is_run, due_rows, lease_rows,
}
use globuy.Pricing.Worker.{StableIds, Turn, Outcome, Tally, attempt}

-- The next look at an item that has failed: twice as late for each failure in a row, up to eight times
-- and up to a week.
unfoldable pub note_failure : PriceConfig → ℕ → ℕ → WishlistItem → WishlistItem
note_failure cfg code failed_at x =
    let count = x.failure_count + 1 in
    record x {
      failure_count = count;
      last_error_code = some code;
      next_check_at = some (failed_at + min 168 (cfg.refresh_hours * 2 ^ min count 3) * hour);
    }

abbrev pub after_failure : PriceConfig → Claimed → Turn → Option ℕ → PriceDb → PriceDb
after_failure cfg r t none db = db
after_failure cfg r t (some code) db =
    let seen = t.before_failure db in
    record seen {
      items =
          update_where (is_item r.item.wishlist_item_id) (note_failure cfg code t.failed_at)
            seen.items;
    }

abbrev pub count_one : Option ℕ → ℕ × ℕ → ℕ × ℕ
count_one none (success, failure) = (success + 1, failure)
count_one (some code) (success, failure) = (success, failure + 1)

-- The foreign keys of a row of price_refresh_items.
abbrev pub has_parents : ℕ → Claimed → PriceDb → Bool
has_parents run r db = any (is_item r.item.wishlist_item_id) db.items && any (is_run run) db.runs

module _ (ids : StableIds) (cfg : PriceConfig) (run now : ℕ) where
  abbrev pub refresh_row : Claimed → Outcome → ℕ → PriceRefreshItem
  refresh_row r o logged_at = record {
    refresh_run_id = run;
    wishlist_item_id = r.item.wishlist_item_id;
    offer_id = r.offer.offer_id;
    status = o.status;
    error_code = o.error_code;
    observation_id = o.completed;
    created_at = logged_at;
  }

  abbrev pub tally_up : Tally → Outcome → PriceDb → Tally
  tally_up y o db =
      let counts = count_one o.error_code (y.success, y.failure) in
      record { db = db; last = o.last; success = counts.0; failure = counts.1 }

  unfoldable pub log_item : Claimed → Turn → Tally → Outcome → PriceDb → Option Tally
  log_item r t y o db =
      let seen = t.before_log db in
      if has_parents run r seen
      then some (
          tally_up y o
            (record seen { refreshed = seen.refreshed ++ refresh_row r o t.logged_at ∷ [] }))
      else none

  abbrev pub log_outcome : Claimed → Turn → Tally → Outcome × PriceDb → Option Tally
  log_outcome r t y (o, db) = log_item r t y o (after_failure cfg r t o.error_code db)

  unfoldable pub refresh_item : Claimed → Turn → Tally → Option Tally
  unfolding attempt log_item note_failure
  refresh_item r t y = log_outcome r t y (attempt ids cfg run now r t y.last y.db)

  abbrev pub then_tally : (Tally → Option Tally) → Option Tally → Option Tally
  then_tally next none = none
  then_tally next (some y) = next y

  unfoldable pub refresh_items : (ℕ → Turn) → ℕ → List Claimed → Tally → Option Tally
  unfolding refresh_item
  refresh_items turns n [] y = some y
  refresh_items turns n (r ∷ rest) y =
      then_tally (refresh_items turns (n + 1) rest) (refresh_item r (turns n) y)

pub record Summary : Type 0 where
  pub refresh_run_id : ℕ
  pub claimed : ℕ
  pub succeeded_count : ℕ
  pub failed_count : ℕ

-- What happens around a round: the locks of others, their changes before the claim and the end.
pub record Surroundings : Type 0 where
  pub before_claim : PriceDb → PriceDb
  pub locked : ℕ → Bool
  pub turns : ℕ → Turn
  pub before_end : PriceDb → PriceDb
  pub ended_at : ℕ

abbrev pub new_run : ℕ → ℕ → PriceRefreshRun
new_run run now = record {
  refresh_run_id = run;
  status = running;
  started_at = now;
  finished_at = none;
  claimed_count = 0;
  success_count = 0;
  failure_count = 0;
}

abbrev pub is_zero : ℕ → Bool
is_zero n = n == 0

unfoldable pub end_run : ℕ → ℕ → Tally → PriceRefreshRun → PriceRefreshRun
end_run ended_at claimed y x = record x {
  status = if is_zero y.failure then succeeded else partial;
  finished_at = some ended_at;
  claimed_count = claimed;
  success_count = y.success;
  failure_count = y.failure;
}

module _ (ids : StableIds) (cfg : PriceConfig) (env : Surroundings) (run now : ℕ) where
  abbrev pub finish_round : List Claimed → Option Tally → Option (Summary × PriceDb)
  finish_round rows none = none
  finish_round rows (some y) =
      let seen = env.before_end y.db in
      some (
        record {
          refresh_run_id = run;
          claimed = length rows;
          succeeded_count = y.success;
          failed_count = y.failure;
        },
        record seen {
          runs = update_where (is_run run) (end_run env.ended_at (length rows) y) seen.runs;
        },
      )

  unfoldable pub start_round : PriceDb → PriceDb
  start_round db = env.before_claim (record db { runs = db.runs ++ new_run run now ∷ [] })

  unfoldable pub run_once : PriceDb → Option (Summary × PriceDb)
  unfolding refresh_items end_run start_round due_rows lease_rows
  run_once db =
      let seen = start_round db in
      let rows = due_rows cfg env.locked now seen in
      finish_round rows (
        refresh_items ids cfg run now env.turns 0 rows
          (record { db = lease_rows cfg now rows seen; last = none; success = 0; failure = 0 }))
