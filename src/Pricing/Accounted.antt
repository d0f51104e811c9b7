-- ===== src/Pricing/Accounted.antt =====
-- A round of the price worker accounts for every item that it has claimed.
use globuy.Prelude.{
  ℕ, ◌+◌, ◌≡◌, refl, ap, ◌∙◌, Bool, true, false, Option, none, some, List, [], ◌∷◌, ◌++◌, any, all,
  count_if, length, map, select_where, arith, ==-refl, all-impl, all-append, count_if-append,
  length-append,
}
use mathlib.Core.List.{map-append}
use globuy.Pricing.Wishlist.{PriceRefreshItem, PriceDb, PriceConfig, Claimed, is_run}
use globuy.Pricing.Worker.{StableIds, Turn, Outcome, Tally, is_present}
use globuy.Pricing.Round.{
  after_failure, has_parents, refresh_row, count_one, tally_up, log_item, log_outcome,
}
use globuy.Pricing.Grown.{
  is_logged_by, log_of, Grown, LeavesRows, Grown-trans, is_true, Attempted, Present, Present-Grown,
  after_failure-Grown,
}

-- A row of the log is true: it has succeeded with an observation and without an error, or failed with an
-- error and without an observation.
abbrev pub is_honest : PriceRefreshItem → Bool
is_honest x = is_true x.status x.error_code x.observation_id

abbrev pub is_error_free : Option ℕ → Bool
is_error_free none = true
is_error_free (some code) = false

abbrev pub is_success : PriceRefreshItem → Bool
is_success x = is_error_free x.error_code

-- The tally is that of the log, which has the items `ids`.
pub record Accounts (run : ℕ) (ids : List ℕ) (y : Tally) : Type 0 where
  pub run_there : any (is_run run) y.db.runs ≡ true
  pub in_order : map PriceRefreshItem.wishlist_item_id (log_of run y.db) ≡ ids
  pub honest : all is_honest (log_of run y.db) ≡ true
  pub successes : count_if is_success (log_of run y.db) ≡ y.success
  pub all_counted : length (log_of run y.db) ≡ y.success + y.failure

abbrev pub AccountsFor : ℕ → List ℕ → List Claimed → Option Tally → Type 0
AccountsFor run ids rest none = ⊥
AccountsFor run ids rest (some y) = Accounts run ids y × (all (λ r. is_present r y.db) rest ≡ true)

select-append :
    (run : ℕ) (xs : List PriceRefreshItem) (x : PriceRefreshItem)
    → x.refresh_run_id ≡ run
    → select_where (is_logged_by run) (xs ++ x ∷ []) ≡ select_where (is_logged_by run) xs ++ x ∷ []
select-append run [] x h = ground (arith, ==-refl run)
select-append run (y ∷ xs) x h = ground (arith, select-append run xs x)

count_one_success :
    (o : Option ℕ) (s f : ℕ) → s + count_if (λ x. is_error_free x) (o ∷ []) ≡ (count_one o (s, f)).0
count_one_success none s f = omega arith
count_one_success (some code) s f = omega arith

count_one_total :
    (o : Option ℕ) (s f : ℕ) → s + f + 1 ≡ (count_one o (s, f)).0 + (count_one o (s, f)).1
count_one_total none s f = omega arith
count_one_total (some code) s f = omega arith

module _ (ids : StableIds) (cfg : PriceConfig) (run now : ℕ) where
  -- One more row of the log.
  tally_up-Accounts :
      (done : List ℕ) (r : Claimed) (y : Tally) (o : Outcome) (db : PriceDb) (logged_at : ℕ)
      → Accounts run done y
      → Grown run y.db db
      → is_true o.status o.error_code o.completed ≡ true
      → Accounts run (done ++ r.item.wishlist_item_id ∷ []) (
          tally_up ids cfg run now y o (record db {
            refreshed = db.refreshed ++ refresh_row ids cfg run now r o logged_at ∷ [];
          }))
  tally_up-Accounts done r y o db logged_at a g fine =
      let log : log_of run (record db {
        refreshed = db.refreshed ++ refresh_row ids cfg run now r o logged_at ∷ [];
      })
          ≡ log_of run y.db ++ refresh_row ids cfg run now r o logged_at ∷ [] =
        select-append run db.refreshed (refresh_row ids cfg run now r o logged_at) refl
        ∙ ap (λ xs. xs ++ refresh_row ids cfg run now r o logged_at ∷ []) g.log_kept in
      let row = refresh_row ids cfg run now r o logged_at in
      record {
        run_there = g.run_kept a.run_there;
        in_order =
            ap (map PriceRefreshItem.wishlist_item_id) log
            ∙ map-append PriceRefreshItem.wishlist_item_id (log_of run y.db) (row ∷ [])
            ∙ ap (λ xs. xs ++ r.item.wishlist_item_id ∷ []) a.in_order;
        honest = rw log (all-append is_honest (log_of run y.db) (row ∷ []) a.honest (rw fine refl));
        successes =
            rw (log, count_if-append is_success (log_of run y.db) (row ∷ []), a.successes)
              (count_one_success o.error_code y.success y.failure);
        all_counted =
            rw (log, length-append (log_of run y.db) (row ∷ []), a.all_counted)
              (count_one_total o.error_code y.success y.failure);
      }

  pub log_outcome-AccountsFor :
      (done : List ℕ) (r : Claimed) (rest : List Claimed) (t : Turn) (y : Tally)
      (x : Outcome × PriceDb)
      → LeavesRows run t.before_failure
      → LeavesRows run t.before_log
      → Accounts run done y
      → Present r y.db
      → all (λ r. is_present r y.db) rest ≡ true
      → Attempted run y.db x
      → AccountsFor run
          (done ++ r.item.wishlist_item_id ∷ [])
          rest
          (log_outcome ids cfg run now r t y x)
  unfolding log_item
  log_outcome-AccountsFor done r rest t y (o, db) j k a there others (fine, g) =
      let seen = t.before_log (after_failure cfg r t o.error_code db) in
      let grown : Grown run y.db seen = Grown-trans run g (
        Grown-trans run (after_failure-Grown run cfg r t o.error_code db j)
          (k (after_failure cfg r t o.error_code db))) in
      let parents : has_parents run r seen ≡ true =
        ground (arith, grown.run_kept a.run_there, grown.items_kept r.item.wishlist_item_id) in
      rw parents (
        tally_up-Accounts done r y o seen t.logged_at a grown fine,
        all-impl (λ r. is_present r y.db) (λ r. is_present r seen) rest
            (λ r. Present-Grown run r grown) others,
      )
