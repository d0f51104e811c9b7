-- ===== src/Pricing/Complete.antt =====
-- A round of the price worker comes to its end, with its log and its counts.
use globuy.Prelude.{
  ℕ, ◌+◌, ◌≡◌, refl, sym, ap, ◌∙◌, Bool, true, false, ◌&&◌, ◌||◌, not, Option, none, some, List, [],
  ◌∷◌, ◌++◌, ◌==◌, any, all, count_if, length, map, update_where, arith, subst, length-map,
  any-update, ==-refl, all-impl, any-append_last,
}
use mathlib.Core.List.{append-nil, append_assoc}
use globuy.Pricing.Wishlist.{
  PriceRefreshItem, PriceRefreshRun, PriceDb, PriceConfig, Claimed, RefreshStatus, running, is_run,
  due_rows, lease_rows,
}
use globuy.Pricing.Worker.{StableIds, Turn, Tally, is_present, attempt}
use globuy.Pricing.Round.{
  refresh_item, then_tally, refresh_items, Summary, Surroundings, new_run, start_round, end_run,
  finish_round, run_once,
}
use globuy.Pricing.Grown.{
  log_of, Grown, LeavesRows, Grown-trans, Grown-lease, Present, Present-Grown, attempt-Attempted,
}
use globuy.Pricing.Due.{due_rows-present}
use globuy.Pricing.Accounted.{is_honest, is_success, Accounts, AccountsFor, log_outcome-AccountsFor}

-- What other tasks may do around one item.
pub record LeavesTurn (run : ℕ) (t : Turn) : Type 0 where
  pub at_reuse : LeavesRows run t.before_reuse
  pub at_store : LeavesRows run t.before_store
  pub at_failure : LeavesRows run t.before_failure
  pub at_log : LeavesRows run t.before_log

then_tally-AccountsFor :
    (ids : StableIds) (cfg : PriceConfig) (run now : ℕ) (next : Tally → Option Tally)
    (done all_done : List ℕ) (rest : List Claimed) (o : Option Tally)
    → AccountsFor run done rest o
    → ((y : Tally)
        → Accounts run done y
        → all (λ r. is_present r y.db) rest ≡ true
        → AccountsFor run all_done [] (next y))
    → AccountsFor run all_done [] (then_tally ids cfg run now next o)
then_tally-AccountsFor ids cfg run now next done all_done rest none h k = absurd h
then_tally-AccountsFor ids cfg run now next done all_done rest (some y) (a, present) k =
    k y a present

module _ (ids : StableIds) (cfg : PriceConfig) (run now : ℕ) where
  refresh_item-AccountsFor :
      (done : List ℕ) (r : Claimed) (rest : List Claimed) (t : Turn) (y : Tally)
      → LeavesTurn run t
      → Accounts run done y
      → all (λ r. is_present r y.db) (r ∷ rest) ≡ true
      → AccountsFor run
          (done ++ r.item.wishlist_item_id ∷ [])
          rest
          (refresh_item ids cfg run now r t y)
  unfolding refresh_item
  refresh_item-AccountsFor done r rest t y k a there =
      let here : Present r y.db = ground arith in
      log_outcome-AccountsFor ids cfg run now done r rest t y
        (attempt ids cfg run now r t y.last y.db) k.at_failure k.at_log a here (ground arith)
        (attempt-Attempted ids cfg run now r t y.last y.db k.at_reuse k.at_store here)

  refresh_items-AccountsFor :
      (turns : ℕ → Turn) (n : ℕ) (done : List ℕ) (rows : List Claimed) (y : Tally)
      → ((i : ℕ) → LeavesTurn run (turns i))
      → Accounts run done y
      → all (λ r. is_present r y.db) rows ≡ true
      → AccountsFor run
          (done ++ map (λ r. r.item.wishlist_item_id) rows)
          []
          (refresh_items ids cfg run now turns n rows y)
  unfolding refresh_items
  refresh_items-AccountsFor turns n done [] y k a there =
      (subst (λ xs. Accounts run xs y) (sym (append-nil done)) a, refl)
  refresh_items-AccountsFor turns n done (r ∷ rest) y k a there =
      subst (λ xs. AccountsFor run xs [] (refresh_items ids cfg run now turns n (r ∷ rest) y))
        (append_assoc done (r.item.wishlist_item_id ∷ []) (map (λ r. r.item.wishlist_item_id) rest))
        (then_tally-AccountsFor ids cfg run now (refresh_items ids cfg run now turns (n + 1) rest)
          (done ++ r.item.wishlist_item_id ∷ [])
          ((done ++ r.item.wishlist_item_id ∷ []) ++ map (λ r. r.item.wishlist_item_id) rest) rest
          (refresh_item ids cfg run now r (turns n) y)
          (refresh_item-AccountsFor done r rest (turns n) y (k n) a there)
          (λ z b present.
            refresh_items-AccountsFor turns (n + 1) (done ++ r.item.wishlist_item_id ∷ []) rest z k
              b present))

abbrev pub is_running : RefreshStatus → Bool
is_running running = true
is_running _ = false

-- The row of the run says what the summary says.
abbrev pub has_summary : Summary → PriceRefreshRun → Bool
has_summary s x =
    x.claimed_count == s.claimed
    && x.success_count == s.succeeded_count
    && x.failure_count == s.failed_count
    && not (is_running x.status)

-- What a round of the items `ids` leaves behind.
pub record Complete (run : ℕ) (ids : List ℕ) (s : Summary) (after : PriceDb) : Type 0 where
  pub logged : map PriceRefreshItem.wishlist_item_id (log_of run after) ≡ ids
  pub honest : all is_honest (log_of run after) ≡ true
  pub successes : count_if is_success (log_of run after) ≡ s.succeeded_count
  pub claimed : s.claimed ≡ length ids
  pub total : s.claimed ≡ s.succeeded_count + s.failed_count
  pub run_there : any (is_run run) after.runs ≡ true
  pub run_ended : all (λ x. not (is_run run x) || has_summary s x) after.runs ≡ true

abbrev pub Completes : ℕ → List ℕ → Option (Summary × PriceDb) → Type 0
Completes run ids none = ⊥
Completes run ids (some (s, after)) = Complete run ids s after

all-end_run :
    (run ended_at : ℕ) (s : Summary) (y : Tally) (runs : List PriceRefreshRun)
    → s.succeeded_count ≡ y.success
    → s.failed_count ≡ y.failure
    → all
        (λ x. not (is_run run x) || has_summary s x)
        (update_where (is_run run) (end_run ended_at s.claimed y) runs)
      ≡ true
unfolding end_run
all-end_run run ended_at s y [] h k = refl
all-end_run run ended_at s y (x ∷ runs) h k = ground (
  arith,
  all-end_run run ended_at s y runs,
  ==-refl s.claimed,
  ==-refl y.success,
  ==-refl y.failure,
)

module _ (ids : StableIds) (cfg : PriceConfig) (env : Surroundings) (run now : ℕ)
    (at_end : LeavesRows run env.before_end) where
  finish_round-Completes :
      (rows : List Claimed) (o : Option Tally)
      → AccountsFor run (map (λ r. r.item.wishlist_item_id) rows) [] o
      → Completes run
          (map (λ r. r.item.wishlist_item_id) rows)
          (finish_round ids cfg env run now rows o)
  unfolding end_run
  finish_round-Completes rows none h = h
  finish_round-Completes rows (some y) (a, present) =
      let g = at_end y.db in
      let same_length : length (log_of run y.db) ≡ length rows =
        sym (length-map PriceRefreshItem.wishlist_item_id (log_of run y.db))
        ∙ ap length a.in_order
        ∙ length-map (λ r. r.item.wishlist_item_id) rows in
      record {
        logged = ap (map PriceRefreshItem.wishlist_item_id) g.log_kept ∙ a.in_order;
        honest = rw g.log_kept a.honest;
        successes = rw g.log_kept a.successes;
        claimed = sym (length-map (λ r. r.item.wishlist_item_id) rows);
        total = sym same_length ∙ a.all_counted;
        run_there =
            any-update (is_run run) (is_run run) (end_run env.ended_at (length rows) y)
              (env.before_end y.db).runs (λ x. refl)
            ∙ g.run_kept a.run_there;
        run_ended =
            all-end_run run env.ended_at
              (record {
                refresh_run_id = run;
                claimed = length rows;
                succeeded_count = y.success;
                failed_count = y.failure;
              })
              y (env.before_end y.db).runs refl refl;
      }

  -- Where other tasks leave the items, the offers and the row of the run in place and write none of its
  -- log, a round whose run is new comes to its end: its log has the claimed items in their order, each
  -- succeeded with an observation and no error or failed with an error and no observation; the summary
  -- counts the items that were claimed, succeeded and failed, the first is the sum of the others, and
  -- the run's row has ended with the same counts.
  pub round-Completes :
      (db : PriceDb)
      → LeavesRows run env.before_claim
      → ((i : ℕ) → LeavesTurn run (env.turns i))
      → log_of run db ≡ []
      → Completes run
          (map
            (λ r. r.item.wishlist_item_id)
            (due_rows cfg env.locked now (start_round ids cfg env run now db)))
          (run_once ids cfg env run now db)
  unfolding run_once start_round
  round-Completes db k turns unused =
      let opened = record db { runs = db.runs ++ new_run run now ∷ [] } in
      let seen = env.before_claim opened in
      let rows = due_rows cfg env.locked now seen in
      let leased = lease_rows cfg now rows seen in
      let g : Grown run opened leased =
        Grown-trans run (k opened) (Grown-lease run cfg now rows seen) in
      let start : Tally = record { db = leased; last = none; success = 0; failure = 0 } in
      let log : log_of run leased ≡ [] = g.log_kept ∙ unused in
      finish_round-Completes rows (refresh_items ids cfg run now env.turns 0 rows start) (
        refresh_items-AccountsFor ids cfg run now env.turns 0 [] rows start turns
          (record {
            run_there =
                g.run_kept (any-append_last (is_run run) db.runs (new_run run now) (==-refl run));
            in_order = rw log refl;
            honest = rw log refl;
            successes = rw log refl;
            all_counted = rw log (omega arith);
          })
          (all-impl (λ r. is_present r seen) (λ r. is_present r leased) rows
            (λ r. Present-Grown run r (Grown-lease run cfg now rows seen))
            (due_rows-present cfg env.locked now seen)))
