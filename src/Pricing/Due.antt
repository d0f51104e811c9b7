-- ===== src/Pricing/Due.antt =====
-- The rows that a round of the price worker claims, with what they refer to.
use globuy.Prelude.{
  ℕ, zero, suc, ◌≡◌, refl, Bool, true, List, [], ◌∷◌, any, all, find_first, take, select_where, inl,
  inr, arith, Bool-cases, Option-cases, ==-refl, all-impl, find_first_counts, any_of_count,
}
use globuy.Pricing.Wishlist.{
  WishlistItem, PriceDb, PriceConfig, Claimed, is_item, is_offer, is_free, due_rows, join_offers,
  sort_due, insert_due, is_before,
}
use globuy.Pricing.Worker.{is_present}

-- The items that a round claims are there, and so are their offers.
all-select :
    (p q : WishlistItem → Bool) (xs : List WishlistItem)
    → all p xs ≡ true
    → all p (select_where q xs) ≡ true
all-select p q [] h = refl
all-select p q (x ∷ xs) h = ground (arith, all-select p q xs)

all_there : (xs : List WishlistItem) → all (λ x. any (is_item x.wishlist_item_id) xs) xs ≡ true
all_there [] = refl
all_there (x ∷ xs) =
    let later : all (λ y. any (is_item y.wishlist_item_id) (x ∷ xs)) xs ≡ true =
      all-impl (λ y. any (is_item y.wishlist_item_id) xs)
        (λ y. any (is_item y.wishlist_item_id) (x ∷ xs)) xs (λ y h. ground arith) (all_there xs) in
    ground (arith, later, ==-refl x.wishlist_item_id)

module _ (p : Claimed → Bool) where
  all-take : (n : ℕ) (xs : List Claimed) → all p xs ≡ true → all p (take n xs) ≡ true
  all-take zero xs h = refl
  all-take (suc n) [] h = refl
  all-take (suc n) (x ∷ xs) h = ground (arith, all-take n xs)

  all-insert_due :
      (a : Claimed) (xs : List Claimed)
      → p a ≡ true
      → all p xs ≡ true
      → all p (insert_due a xs) ≡ true
  all-insert_due a [] h k = ground arith
  all-insert_due a (b ∷ xs) h k = elim (Bool-cases (is_before a b)) [
    | inl before ↦ rw before (ground arith)
    | inr behind ↦ rw behind (ground (arith, all-insert_due a xs))
  ]

  all-sort_due : (xs : List Claimed) → all p xs ≡ true → all p (sort_due xs) ≡ true
  all-sort_due [] h = refl
  all-sort_due (x ∷ xs) h =
      all-insert_due x (sort_due xs) (ground arith) (all-sort_due xs (ground arith))

join_offers-present :
    (db : PriceDb) (xs : List WishlistItem)
    → all (λ x. any (is_item x.wishlist_item_id) db.items) xs ≡ true
    → all (λ r. is_present r db) (join_offers db.offers xs) ≡ true
join_offers-present db [] h = refl
join_offers-present db (x ∷ xs) h =
    elim (Option-cases (find_first (is_offer x.offer_id) db.offers)) [
      | inl unknown ↦ rw unknown (join_offers-present db xs (ground arith))
      | inr (k, found) ↦
          let there : any (is_offer k.offer_id) db.offers ≡ true =
            any_of_count (is_offer k.offer_id) db.offers (
              find_first_counts (is_offer x.offer_id) (is_offer k.offer_id) db.offers k found
                (==-refl k.offer_id)) in
          rw found (ground (arith, there, join_offers-present db xs))
    ]

pub due_rows-present :
    (cfg : PriceConfig) (locked : ℕ → Bool) (now : ℕ) (db : PriceDb)
    → all (λ r. is_present r db) (due_rows cfg locked now db) ≡ true
unfolding due_rows
due_rows-present cfg locked now db =
    all-take (λ r. is_present r db) cfg.batch_size
      (sort_due (join_offers db.offers (select_where (is_free locked now) db.items)))
      (all-sort_due (λ r. is_present r db)
        (join_offers db.offers (select_where (is_free locked now) db.items))
        (join_offers-present db (select_where (is_free locked now) db.items)
          (all-select _ (is_free locked now) db.items (all_there db.items))))
