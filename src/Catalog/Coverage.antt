-- ===== src/Catalog/Coverage.antt =====
-- app/products/catalog/coverage.py, CatalogCoverageService.inspect, over the tables CatalogScope,
-- CatalogScopeOffer and Offer. Of the rows only the columns that it reads are kept.
use globuy.Prelude.{
  ℕ, ◌+◌, ◌≤◌, ◌≡◌, refl, Bool, true, false, ◌&&◌, not, Option, none, some, List, [], ◌∷◌, ◌==◌,
  ltb, leb, any, is_some, find_first, select_where, length, if◌then◌else◌, arith,
}

pub data CoverageStatus : Type 0 where
  sufficient thin stale missing refreshing : CoverageStatus

pub data CoverageReason : Type 0 where
  scope_missing active_hydration fresh_and_sufficient : CoverageReason
  fresh_but_thin only_stale_members no_members : CoverageReason

pub record CatalogScope : Type 0 where
  pub scope_id : ℕ
  pub newest_captured_at : Option ℕ
  pub lease_expires_at : Option ℕ

pub record CatalogScopeOffer : Type 0 where
  pub scope_id : ℕ
  pub offer_id : ℕ
  pub last_seen_at : ℕ
  pub expires_at : ℕ

pub record Offer : Type 0 where
  pub offer_id : ℕ
  pub is_active : Bool
  pub current_price : Option ℕ

pub record CoverageResult : Type 0 where
  pub status : CoverageStatus
  pub scope_id : ℕ
  pub fresh_count : ℕ
  pub fresh_offer_ids : List ℕ
  pub newest_captured_at : Option ℕ
  pub refresh_required : Bool
  pub reason : CoverageReason

pub record CoverageTables : Type 0 where
  pub scopes : List CatalogScope
  pub members : List CatalogScopeOffer
  pub offers : List Offer

-- `freshness` is `freshness_seconds` in microseconds.
pub record CoverageConfig : Type 0 where
  pub freshness : ℕ
  pub minimum : ℕ

-- `expires_at > now`, `last_seen_at >= now - freshness`, and an offer that is active and has a price.
abbrev pub is_fresh : CoverageConfig → ℕ → ℕ → CoverageTables → CatalogScopeOffer → Bool
is_fresh cfg now scope db m =
    m.scope_id == scope
    && ltb now m.expires_at
    && leb now (m.last_seen_at + cfg.freshness)
    && any (λ o. o.offer_id == m.offer_id && o.is_active && is_some o.current_price) db.offers

abbrev pub offer_ids : List CatalogScopeOffer → List ℕ
offer_ids [] = []
offer_ids (m ∷ ms) = m.offer_id ∷ offer_ids ms

abbrev pub is_held : ℕ → Option ℕ → Bool
is_held now none = false
is_held now (some at) = ltb now at

abbrev pub judge : Bool → ℕ → ℕ → Option ℕ → CoverageStatus × CoverageReason
judge held minimum count newest =
    if held
    then (refreshing, active_hydration)
    else if leb minimum count
    then (sufficient, fresh_and_sufficient)
    else if not (count == 0)
    then (thin, fresh_but_thin)
    else if is_some newest
    then (stale, only_stale_members)
    else (missing, no_members)

abbrev pub is_sufficient : CoverageStatus → Bool
is_sufficient sufficient = true
is_sufficient _ = false

abbrev pub report : CoverageConfig → ℕ → ℕ → List ℕ → Option CatalogScope → CoverageResult
report cfg now scope ids none = record {
  status = missing;
  scope_id = scope;
  fresh_count = 0;
  fresh_offer_ids = [];
  newest_captured_at = none;
  refresh_required = true;
  reason = scope_missing;
}
report cfg now scope ids (some row) =
    let (status, reason) =
      judge (is_held now row.lease_expires_at) cfg.minimum (length ids) row.newest_captured_at in
    record {
      status = status;
      scope_id = scope;
      fresh_count = length ids;
      fresh_offer_ids = ids;
      newest_captured_at = row.newest_captured_at;
      refresh_required = not (is_sufficient status);
      reason = reason;
    }

unfoldable pub inspect : CoverageConfig → ℕ → ℕ → CoverageTables → CoverageResult
inspect cfg now scope db =
    report cfg now scope (offer_ids (select_where (is_fresh cfg now scope db) db.members))
      (find_first (λ x. x.scope_id == scope) db.scopes)

report_settled :
    (cfg : CoverageConfig) (now scope : ℕ) (ids : List ℕ) (o : Option CatalogScope)
    → (report cfg now scope ids o).refresh_required ≡ false
    → (cfg.minimum ≤ (report cfg now scope ids o).fresh_count)
      × ((report cfg now scope ids o).fresh_offer_ids ≡ ids)
      × ((report cfg now scope ids o).fresh_count ≡ length ids)
report_settled cfg now scope ids none h = cc
report_settled cfg now scope ids (some row) h = (ground arith, refl, refl)

-- No refresh is asked for only where at least `minimum` offers of the scope are unexpired, seen within
-- the freshness bound, active and priced: the offers that are reported are just those.
no_refresh_is_earned :
    (cfg : CoverageConfig) (now scope : ℕ) (db : CoverageTables)
    → (inspect cfg now scope db).refresh_required ≡ false
    → let result = inspect cfg now scope db in
      let fresh = offer_ids (select_where (is_fresh cfg now scope db) db.members) in
      (cfg.minimum ≤ result.fresh_count)
      × (result.fresh_offer_ids ≡ fresh)
      × (result.fresh_count ≡ length fresh)
unfolding inspect
no_refresh_is_earned cfg now scope db h =
    report_settled cfg now scope _ (find_first (λ x. x.scope_id == scope) db.scopes) h
