-- ===== src/Pricing/Reuse.antt =====
-- A price that is known today is not asked for again.
use globuy.Prelude.{
  ltb, false_not_true, ◌≤◌, ℕ, ◌≡◌, refl, ap, Bool, true, false, Option, none, some, List, [], ◌∷◌,
  ◌++◌, ◌==◌, any, find_first, inl, inr, arith, Bool-cases, ==-refl, any-append_last,
}
use globuy.Pricing.Wishlist.{PriceDb, PriceConfig, Claimed}
use globuy.Pricing.Worker.{StableIds, Turn, attempt}
use globuy.Pricing.Grown.{Grown, Attempted-Grown, store_detail-Attempted, Present, Present-Grown}
use globuy.Pricing.Worker.{
  succeeding, observation, snapshot, is_stored, store_detail, see_again, reuse_today_observation,
}
use globuy.Pricing.Wishlist.{OfferObservation, SourceSnapshot, is_of_today, latest, later_of}
use globuy.Pricing.Schedule.{current_beijing_day_start, next_daily_refresh}

later_of-some :
    (b : OfferObservation) (o : Option OfferObservation)
    → (c : OfferObservation) × (later_of b o ≡ some c)
later_of-some b none = (b, refl)
later_of-some b (some c) = elim (Bool-cases (ltb b.observed_at c.observed_at)) [
  | inl later ↦ (c, rw later refl)
  | inr before ↦ (b, rw before refl)
]

-- Where an observation passes the query's test, the query finds one.
latest-some :
    (p : OfferObservation → Bool) (xs : List OfferObservation)
    → any p xs ≡ true
    → (c : OfferObservation) × (latest p xs ≡ some c)
latest-some p [] h = absurd (false_not_true h)
latest-some p (b ∷ xs) h = elim (Bool-cases (p b)) [
  | inl here ↦ let (c, found) = later_of-some b (latest p xs) in (c, rw here found)
  | inr there ↦ let (c, found) = latest-some p xs (ground arith) in (c, rw there found)
]

find_first-new :
    (p : SourceSnapshot → Bool) (xs : List SourceSnapshot) (x : SourceSnapshot)
    → any p xs ≡ false
    → p x ≡ true
    → find_first p (xs ++ x ∷ []) ≡ some x
find_first-new p [] x h k = ground arith
find_first-new p (y ∷ xs) x h k = ground (arith, find_first-new p xs x)

module _ (ids : StableIds) (cfg : PriceConfig) (run now : ℕ) where
  known_today :
      (r : Claimed) (t : Turn) (last : Option ℕ) (db : PriceDb)
      → Present r (t.before_reuse db)
      → any (is_of_today r.offer.offer_id now (t.before_reuse db)) (t.before_reuse db).observations
        ≡ true
      → (id : ℕ) × ((attempt ids cfg run now r t last db).0.completed ≡ some id)
        × ((attempt ids cfg run now r t last db).0.error_code ≡ none)
  unfolding attempt reuse_today_observation
  known_today r t last db here known =
      let (b, found) = latest-some (is_of_today r.offer.offer_id now (t.before_reuse db)) _ known in
      (b.observation_id, rw (found, here) refl, rw (found, here) refl)

  abbrev pub stored_price : Claimed → Turn → ℕ → ℕ → Option ℕ → PriceDb → PriceDb
  stored_price r t price currency last db =
      (store_detail ids cfg run now r (observation ids cfg run now r price currency t.observed_at)
        last db).1

  -- The tables with the price.
  abbrev priced : Claimed → OfferObservation → PriceDb → PriceDb
  priced r b db =
      see_again r b (next_daily_refresh cfg.refresh_local_hour b.observed_at) (record db {
        snapshots = db.snapshots ++ snapshot ids cfg run now r b.observed_at ∷ [];
        observations = db.observations ++ b ∷ [];
      })

  store_detail_stored :
      (r : Claimed) (b : OfferObservation) (last : Option ℕ) (db : PriceDb)
      → is_stored ids cfg run now b db ≡ false
      → Present r db
      → store_detail ids cfg run now r b last db
        ≡ (succeeding ids cfg run now b.observation_id (some b.observation_id), priced r b db)
  unfolding store_detail
  store_detail_stored r b last db free here = rw (here, free) refl

  stored_price-priced :
      (r : Claimed) (t : Turn) (last : Option ℕ) (price currency : ℕ) (db : PriceDb)
      → is_stored ids cfg run now (observation ids cfg run now r price currency t.observed_at) db
        ≡ false
      → Present r db
      → stored_price r t price currency last db
        ≡ priced r (observation ids cfg run now r price currency t.observed_at) db
  stored_price-priced r t last price currency db free here =
      ap (λ x. x.1)
        (store_detail_stored r (observation ids cfg run now r price currency t.observed_at) last db
          free here)

  stored_is_known :
      (r : Claimed) (t : Turn) (last : Option ℕ) (price currency : ℕ) (db : PriceDb)
      → is_stored ids cfg run now (observation ids cfg run now r price currency t.observed_at) db
        ≡ false
      → current_beijing_day_start now ≤ t.observed_at
      → Present r db
      → any
          (is_of_today r.offer.offer_id now (stored_price r t price currency last db))
          (stored_price r t price currency last db).observations
        ≡ true
  unfolding observation is_of_today
  stored_is_known r t last price currency db free today here =
      let b = observation ids cfg run now r price currency t.observed_at in
      let new : any (λ s. s.snapshot_id == b.snapshot_id) db.snapshots ≡ false = ground arith in
      let joined : find_first (λ s. s.snapshot_id == b.snapshot_id)
            (db.snapshots ++ snapshot ids cfg run now r t.observed_at ∷ [])
          ≡ some (snapshot ids cfg run now r t.observed_at) =
        find_first-new (λ s. s.snapshot_id == b.snapshot_id) db.snapshots
          (snapshot ids cfg run now r t.observed_at) new (==-refl b.snapshot_id) in
      rw (stored_price-priced r t last price currency db free here) (
        any-append_last (is_of_today r.offer.offer_id now (priced r b db)) db.observations b
          (rw (joined, ==-refl r.offer.offer_id) (ground arith)))

  -- Where a provider's price could be stored, a later item of the same offer in the same round succeeds
  -- with an observation, whatever its provider would answer, if no other task comes between.
  pub one_question_per_offer :
      (r r' : Claimed) (t t' : Turn) (last last' : Option ℕ) (price currency : ℕ) (db : PriceDb)
      → is_stored ids cfg run now (observation ids cfg run now r price currency t.observed_at) db
        ≡ false
      → current_beijing_day_start now ≤ t.observed_at
      → r'.offer.offer_id ≡ r.offer.offer_id
      → Present r db
      → Present r' db
      → t'.before_reuse (stored_price r t price currency last db)
        ≡ stored_price r t price currency last db
      → (id : ℕ) × ((attempt ids cfg run now r' t' last'
            (stored_price r t price currency last db)).0.completed
          ≡ some id)
        × ((attempt ids cfg run now r' t' last'
              (stored_price r t price currency last db)).0.error_code
            ≡ none)
  one_question_per_offer r r' t t' last last' price currency db free today same here there alone =
      let after = stored_price r t price currency last db in
      let b = observation ids cfg run now r price currency t.observed_at in
      let g : Grown run db after =
        Attempted-Grown run db (store_detail ids cfg run now r b last db)
          (store_detail-Attempted ids cfg run now r b last db here) in
      known_today r' t' last' after (rw alone (Present-Grown run r' g there))
        (rw (alone, same) (stored_is_known r t last price currency db free today here))
