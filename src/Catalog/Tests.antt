-- ===== src/Catalog/Tests.antt =====
-- The stop policy on concrete calls, and the coverage of one scope.
use globuy.Prelude.{ℕ, ◌≤◌, ◌≡◌, refl, true, false, none, some, List, [], ◌∷◌}
use globuy.Catalog.Stop.{
  Platform, taobao, jingdong, CatalogStopPolicy, Observation, pos, fresh_policy, observe, reason,
}
use globuy.Catalog.Coverage.{CoverageTables, CoverageConfig, inspect}
use globuy.Catalog.Budget.{Steps, ready, step, within_budget}

abbrev two : List Platform
two = taobao ∷ jingdong ∷ []

abbrev page : Platform → ℕ → Observation
page p n = record { platform = p; accepted = pos n; success = true; has_more = true }

abbrev after_one : CatalogStopPolicy
after_one = record {
  minimum_total = 60;
  target_total = 100;
  hard_cap_total = 120;
  minimum_per_platform = 15;
  max_success_calls = 12;
  max_attempts = 20;
  rows =
      record { platform = taobao; count = 50; pages = 1 }
      ∷ record { platform = jingdong; count = 0; pages = 0 }
      ∷ [];
  finished = [];
  attempts = 1;
  success_calls = 1;
}

one_step : Steps (fresh_policy two) 1 1 after_one
unfolding fresh_policy reason observe
one_step = step (page taobao 50) false ready refl refl

no_attempt : (fresh_policy two).attempts ≡ 0
unfolding fresh_policy
no_attempt = refl

no_call : (fresh_policy two).success_calls ≡ 0
unfolding fresh_policy
no_call = refl

within_budget_example :
    (1 ≤ (fresh_policy two).max_attempts) × (1 ≤ (fresh_policy two).max_success_calls)
within_budget_example = within_budget no_attempt no_call one_step

-- A scope with one fresh offer and one that has expired.
abbrev tables : CoverageTables
tables = record {
  scopes = record { scope_id = 1; newest_captured_at = some 90; lease_expires_at = none } ∷ [];
  members =
      record { scope_id = 1; offer_id = 5; last_seen_at = 90; expires_at = 200 }
      ∷ record { scope_id = 1; offer_id = 6; last_seen_at = 90; expires_at = 95 }
      ∷ [];
  offers =
      record { offer_id = 5; is_active = true; current_price = some 10 }
      ∷ record { offer_id = 6; is_active = true; current_price = some 10 }
      ∷ [];
}

abbrev bounds : CoverageConfig
bounds = record { freshness = 50; minimum = 1 }

no_refresh : (inspect bounds 100 1 tables).refresh_required ≡ false
unfolding inspect
no_refresh = refl
