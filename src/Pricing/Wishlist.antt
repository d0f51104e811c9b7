-- ===== src/Pricing/Wishlist.antt =====
-- The tables of app/products/price_worker.py (app/database/models.py), and the rows that a round of the
-- worker claims. Times are those of the schedule; a price is a count of the column's last digit. Columns
-- that the worker does not read, or sets to constants, are left out.
use globuy.Prelude.{
  ℕ, ◌+◌, ◌*◌, Bool, true, false, ◌&&◌, ◌||◌, not, Option, none, some, List, [], ◌∷◌, ◌==◌, ltb,
  leb, take, any, find_first, select_where, update_where, if◌then◌else◌,
}
use globuy.Pricing.Schedule.{current_beijing_day_start}

pub record WishlistItem : Type 0 where
  pub wishlist_item_id : ℕ
  pub offer_id : ℕ
  pub is_active : Bool
  pub last_checked_at : Option ℕ
  pub next_check_at : Option ℕ
  pub latest_observation_id : Option ℕ
  pub failure_count : ℕ
  pub last_error_code : Option ℕ

pub record Offer : Type 0 where
  pub offer_id : ℕ
  pub platform : ℕ
  pub source_item_id : ℕ
  pub currency : ℕ
  pub current_price : Option ℕ
  pub last_seen_at : ℕ
  pub last_observation_id : Option ℕ

pub record OfferObservation : Type 0 where
  pub observation_id : ℕ
  pub offer_id : ℕ
  pub snapshot_id : ℕ
  pub observed_at : ℕ
  pub provider_record_key : ℕ
  pub price : Option ℕ
  pub currency : ℕ

pub data SnapshotProvider : Type 0 where
  offline_jsonl product_detail_adapter other_provider : SnapshotProvider

pub record SourceSnapshot : Type 0 where
  pub snapshot_id : ℕ
  pub provider : SnapshotProvider
  pub platform : ℕ
  pub captured_at : ℕ
  pub request_key : ℕ
  pub refresh_run_id : Option ℕ

pub data RefreshStatus : Type 0 where
  running succeeded partial failed : RefreshStatus

pub record PriceRefreshRun : Type 0 where
  pub refresh_run_id : ℕ
  pub status : RefreshStatus
  pub started_at : ℕ
  pub finished_at : Option ℕ
  pub claimed_count : ℕ
  pub success_count : ℕ
  pub failure_count : ℕ

pub record PriceRefreshItem : Type 0 where
  pub refresh_run_id : ℕ
  pub wishlist_item_id : ℕ
  pub offer_id : ℕ
  pub status : RefreshStatus
  pub error_code : Option ℕ
  pub observation_id : Option ℕ
  pub created_at : ℕ

pub record PriceDb : Type 0 where
  pub items : List WishlistItem
  pub offers : List Offer
  pub observations : List OfferObservation
  pub snapshots : List SourceSnapshot
  pub runs : List PriceRefreshRun
  pub refreshed : List PriceRefreshItem

abbrev pub minute : ℕ
minute = 60000000

pub record PriceConfig : Type 0 where
  pub refresh_hours : ℕ
  pub refresh_local_hour : ℕ
  pub batch_size : ℕ
  pub claim_lease_minutes : ℕ

abbrev pub is_item : ℕ → WishlistItem → Bool
is_item w x = x.wishlist_item_id == w

abbrev pub is_offer : ℕ → Offer → Bool
is_offer k x = x.offer_id == k

abbrev pub is_run : ℕ → PriceRefreshRun → Bool
is_run r x = x.refresh_run_id == r

-- NULL or a time that has come.
abbrev pub is_due : ℕ → Option ℕ → Bool
is_due now none = true
is_due now (some t) = leb t now

-- A claimed row: the item and its offer.
pub record Claimed : Type 0 where
  pub item : WishlistItem
  pub offer : Offer

-- The join with the offer.
abbrev pub with_offer : WishlistItem → Option Offer → List Claimed → List Claimed
with_offer x none rest = rest
with_offer x (some k) rest = record { item = x; offer = k } ∷ rest

abbrev pub join_offers : List Offer → List WishlistItem → List Claimed
join_offers offers [] = []
join_offers offers (x ∷ xs) =
    with_offer x (find_first (is_offer x.offer_id) offers) (join_offers offers xs)

-- ORDER BY next_check_at, with NULL last, and the identifier.
abbrev pub precedes : Option ℕ → Option ℕ → Bool → Bool
precedes none none tie = tie
precedes none (some t) tie = false
precedes (some s) none tie = true
precedes (some s) (some t) tie = ltb s t || s == t && tie

abbrev pub is_before : Claimed → Claimed → Bool
is_before a b =
    precedes a.item.next_check_at b.item.next_check_at
      (ltb a.item.wishlist_item_id b.item.wishlist_item_id)

abbrev pub insert_due : Claimed → List Claimed → List Claimed
insert_due a [] = a ∷ []
insert_due a (b ∷ rest) =
    let later = insert_due a rest in if is_before a b then a ∷ b ∷ rest else b ∷ later

abbrev pub sort_due : List Claimed → List Claimed
sort_due [] = []
sort_due (a ∷ rest) = insert_due a (sort_due rest)

-- A row that the query takes: due, active, and not locked by another transaction, nor its offer.
unfoldable pub is_free : (ℕ → Bool) → ℕ → WishlistItem → Bool
is_free locked now x = x.is_active && is_due now x.next_check_at && not (locked x.wishlist_item_id)

unfoldable pub due_rows : PriceConfig → (ℕ → Bool) → ℕ → PriceDb → List Claimed
unfolding is_free
due_rows cfg locked now db =
    take cfg.batch_size
      (sort_due (join_offers db.offers (select_where (is_free locked now) db.items)))

-- The lease on the rows.
abbrev pub is_claimed : List Claimed → WishlistItem → Bool
is_claimed rows x = any (λ r. r.item.wishlist_item_id == x.wishlist_item_id) rows

unfoldable pub lease_rows : PriceConfig → ℕ → List Claimed → PriceDb → PriceDb
lease_rows cfg now rows db = record db {
  items =
      update_where (is_claimed rows)
        (λ x. record x { next_check_at = some (now + cfg.claim_lease_minutes * minute) }) db.items;
}

-- An observation of the day that was not imported.
abbrev pub is_online : Option SourceSnapshot → Bool
is_online none = false
is_online (some s) = elim s.provider [ offline_jsonl ↦ false | _ ↦ true ]

abbrev pub is_priced : Option ℕ → Bool
is_priced none = false
is_priced (some p) = true

unfoldable pub is_of_today : ℕ → ℕ → PriceDb → OfferObservation → Bool
unfolding current_beijing_day_start
is_of_today k now db b =
    b.offer_id == k
    && leb (current_beijing_day_start now) b.observed_at
    && is_priced b.price
    && is_online (find_first (λ s. s.snapshot_id == b.snapshot_id) db.snapshots)

-- ORDER BY observed_at DESC LIMIT 1
abbrev pub later_of : OfferObservation → Option OfferObservation → Option OfferObservation
later_of b none = some b
later_of b (some c) = if ltb b.observed_at c.observed_at then some c else some b

abbrev pub latest : (OfferObservation → Bool) → List OfferObservation → Option OfferObservation
latest p [] = none
latest p (b ∷ rest) = if p b then later_of b (latest p rest) else latest p rest
