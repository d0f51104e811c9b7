-- ===== src/Catalog/Stop.antt =====
-- app/products/catalog/stop_policy.py, class CatalogStopPolicy. The two dictionaries are one list of
-- rows with a row for each platform of the policy, in their order.
use globuy.Prelude.{
  ℕ, ◌+◌, Bool, true, false, ◌&&◌, ◌||◌, Option, none, some, List, [], ◌∷◌, leb, ◌==◌, any, all,
  update_where, length, if◌then◌else◌,
}

pub data Platform : Type 0 where
  taobao jingdong douyin : Platform

abbrev pub same_platform : Platform → Platform → Bool
same_platform taobao taobao = true
same_platform jingdong jingdong = true
same_platform douyin douyin = true
same_platform _ _ = false

pub data StopReason : Type 0 where
  target_reached minimum_at_deadline hard_cap_reached exhausted : StopReason
  budget_reached hard_deadline cancelled : StopReason

pub record Row : Type 0 where
  pub platform : Platform
  pub count : ℕ
  pub pages : ℕ

pub record CatalogStopPolicy : Type 0 where
  pub minimum_total : ℕ
  pub target_total : ℕ
  pub hard_cap_total : ℕ
  pub minimum_per_platform : ℕ
  pub max_success_calls : ℕ
  pub max_attempts : ℕ
  pub rows : List Row
  pub finished : List Platform
  pub attempts : ℕ
  pub success_calls : ℕ

abbrev fresh_rows : List Platform → List Row
fresh_rows [] = []
fresh_rows (p ∷ ps) = record { platform = p; count = 0; pages = 0 } ∷ fresh_rows ps

-- The policy with the class's default bounds.
unfoldable pub fresh_policy : List Platform → CatalogStopPolicy
fresh_policy platforms = record {
  minimum_total = 60;
  target_total = 100;
  hard_cap_total = 120;
  minimum_per_platform = 15;
  max_success_calls = 12;
  max_attempts = 20;
  rows = fresh_rows platforms;
  finished = [];
  attempts = 0;
  success_calls = 0;
}

abbrev pub sum_counts : List Row → ℕ
sum_counts [] = 0
sum_counts (r ∷ rs) = r.count + sum_counts rs

abbrev pub total : CatalogStopPolicy → ℕ
total s = sum_counts s.rows

abbrev pub is_finished : CatalogStopPolicy → Platform → Bool
is_finished s p = any (same_platform p) s.finished

-- A whole number over the native numbers; `max(0, accepted)`.
pub data ℤ : Type 0 where
  pos negsuc : ℕ → ℤ

abbrev pub at_least_zero : ℤ → ℕ
at_least_zero (pos n) = n
at_least_zero (negsuc n) = 0

pub record Observation : Type 0 where
  pub platform : Platform
  pub accepted : ℤ
  pub success : Bool
  pub has_more : Bool

abbrev pub count_page : ℕ → Row → Row
count_page n r = record r { pages = r.pages + 1; count = r.count + n }

-- The additions of a successful call. `none` is the KeyError of a platform without a row.
abbrev pub book : Observation → CatalogStopPolicy → Option CatalogStopPolicy
book o s =
    if o.success
    then if any (λ r. same_platform o.platform r.platform) s.rows
      then some (record s {
        success_calls = s.success_calls + 1;
        rows =
            update_where (λ r. same_platform o.platform r.platform)
              (count_page (at_least_zero o.accepted)) s.rows;
      })
      else none
    else some s

abbrev pub close_platform : Observation → CatalogStopPolicy → CatalogStopPolicy
close_platform o s =
    if o.has_more || is_finished s o.platform
    then s
    else record s { finished = o.platform ∷ s.finished }

abbrev pub then_close : Observation → Option CatalogStopPolicy → Option CatalogStopPolicy
then_close o none = none
then_close o (some s) = some (close_platform o s)

unfoldable pub observe : Observation → CatalogStopPolicy → Option CatalogStopPolicy
observe o s = then_close o (book o (record s { attempts = s.attempts + 1 }))

abbrev pub has_started : CatalogStopPolicy → Row → Bool
has_started s r = leb 1 r.pages || is_finished s r.platform

abbrev pub is_covered : CatalogStopPolicy → Row → Bool
is_covered s r = is_finished s r.platform || leb s.minimum_per_platform r.count

-- `soft` and `hard` are the two deadlines. The tests in the order of the source.
unfoldable pub reason : Bool → Bool → CatalogStopPolicy → Option StopReason
reason soft hard s =
    if leb s.hard_cap_total (total s)
    then some hard_cap_reached
    else if hard
    then some hard_deadline
    else if leb s.max_attempts s.attempts || leb s.max_success_calls s.success_calls
    then some budget_reached
    else if leb s.target_total (total s) && all (has_started s) s.rows
    then some target_reached
    else if soft && leb s.minimum_total (total s) && all (is_covered s) s.rows
    then some minimum_at_deadline
    else if length s.finished == length s.rows
    then some exhausted
    else none
