-- ===== src/Memory/Consolidation.antt =====
-- app/memory/consolidation_worker.py, class MemoryConsolidationWorker, over the session store's
-- tables. Each method is one transaction; the clock and the fresh token are arguments.
use globuy.Prelude.{
  zero, suc, ℕ, ◌+◌, ◌-◌, ◌*◌, max, Bool, true, false, ◌&&◌, ◌||◌, not, Option, none, some, List,
  [], ◌∷◌, ◌==◌, ltb, leb, is_some, if◌then◌else◌, take,
}
use globuy.Sessions.Schema.{Db, Text, Consolidation}
use globuy.Sessions.Rows.{update_consolidations, consolidation_row}

-- The settings that the worker reads. Times are microseconds.
pub record WorkerConfig : Type 0 where
  pub lease : ℕ
  pub run_threshold : ℕ

-- _RETRY_SECONDS
abbrev pub retry_seconds : List ℕ
retry_seconds = 60 ∷ 300 ∷ 1800 ∷ []

abbrev pub is_due : ℕ → Option ℕ → Bool
is_due now none = false
is_due now (some at) = leb at now

-- `claimed_at IS NULL OR claimed_at < now - lease`
abbrev pub is_free : ℕ → ℕ → Option ℕ → Bool
is_free lease now none = true
is_free lease now (some at) = ltb (at + lease) now

abbrev pub is_claimable : ℕ → ℕ → Consolidation → Bool
is_claimable lease now c =
    not (c.pending_successful_runs == 0)
    && is_due now c.due_at
    && not (is_some c.dead_lettered_at)
    && is_free lease now c.claimed_at

abbrev due_or_zero : Option ℕ → ℕ
due_or_zero none = 0
due_or_zero (some at) = at

-- ORDER BY due_at, thread_id, of rows that are due.
abbrev pub comes_first : Consolidation → Consolidation → Bool
comes_first c d =
    ltb (due_or_zero c.due_at) (due_or_zero d.due_at)
    || due_or_zero c.due_at == due_or_zero d.due_at && leb c.thread_id d.thread_id

abbrev pub earlier : Consolidation → Option Consolidation → Option Consolidation
earlier c none = some c
earlier c (some d) = if comes_first c d then some c else some d

unfoldable pub next_due : ℕ → ℕ → List Consolidation → Option Consolidation
next_due lease now [] = none
next_due lease now (c ∷ cs) =
    let rest = next_due lease now cs in if is_claimable lease now c then earlier c rest else rest

pub record Claim : Type 0 where
  pub token : ℕ
  pub thread_id : ℕ
  pub user_id : ℕ
  pub cursor : ℕ

abbrev pub is_of : ℕ → Consolidation → Bool
is_of t c = c.thread_id == t

abbrev pub hold : ℕ → ℕ → Consolidation → Consolidation
hold now token c = record c { claimed_at = some now; claim_token = some token }

abbrev pub claim_row : ℕ → ℕ → Option Consolidation → Db → Option Claim × Db
claim_row now token none db = (none, db)
claim_row now token (some c) db = (
  some (record {
    token = token;
    thread_id = c.thread_id;
    user_id = c.user_id;
    cursor = c.processed_through_ordinal;
  }),
  update_consolidations (is_of c.thread_id) (hold now token) db,
)

unfoldable pub claim : WorkerConfig → ℕ → ℕ → Db → Option Claim × Db
claim cfg now token db = claim_row now token (next_due cfg.lease now db.consolidations) db

-- A change of a row that is still held under a token.
abbrev pub holds : ℕ → Option ℕ → Bool
holds token none = false
holds token (some other) = other == token

abbrev pub if_held : ℕ → ℕ → (Consolidation → Consolidation) → Option Consolidation → Db → Db
if_held token t f none db = db
if_held token t f (some c) db =
    if holds token c.claim_token then update_consolidations (is_of t) f db else db

-- What is left once `run_count` runs are consolidated.
abbrev pub left_over : ℕ → ℕ → ℕ
left_over run_count pending = if run_count == 0 then 0 else pending - run_count

abbrev pub settle_row : ℕ → ℕ → ℕ → Consolidation → Consolidation
settle_row snapshot run_count now c = record c {
  processed_through_ordinal = max c.processed_through_ordinal snapshot;
  pending_successful_runs = left_over run_count c.pending_successful_runs;
  claimed_at = none;
  claim_token = none;
  attempts = 0;
  last_error_code = none;
  updated_at = now;
  due_at = (if left_over run_count c.pending_successful_runs == 0 then none else some now);
}

unfoldable pub complete : ℕ → ℕ → ℕ → ℕ → ℕ → Db → Db
complete token t snapshot run_count now db =
    if_held token t (settle_row snapshot run_count now) (consolidation_row t db) db

-- The delay before attempt n + 1, where there is one.
unfoldable pub retry_delay : ℕ → List ℕ → Option ℕ
retry_delay n [] = none
retry_delay zero (d ∷ ds) = some d
retry_delay (suc n) (d ∷ ds) = retry_delay n ds

abbrev pub due_again : ℕ → Option ℕ → Option ℕ
due_again now none = none
due_again now (some delay) = some (now + delay * 1000000)

abbrev pub dead_at : ℕ → Option ℕ → Option ℕ → Option ℕ
dead_at now none old = some now
dead_at now (some delay) old = old

abbrev pub fail_row : ℕ → Text → Consolidation → Consolidation
fail_row now error_code c = record c {
  attempts = c.attempts + 1;
  last_error_code = some (take 100 error_code);
  claimed_at = none;
  claim_token = none;
  updated_at = now;
  dead_lettered_at = dead_at now (retry_delay c.attempts retry_seconds) c.dead_lettered_at;
  due_at = due_again now (retry_delay c.attempts retry_seconds);
}

unfoldable pub fail : ℕ → ℕ → ℕ → Text → Db → Db
fail token t now error_code db =
    if_held token t (fail_row now error_code) (consolidation_row t db) db

abbrev pub restart : ℕ → Consolidation → Consolidation
restart now c = record c {
  attempts = 0;
  last_error_code = none;
  dead_lettered_at = none;
  claimed_at = none;
  claim_token = none;
  due_at = some now;
  updated_at = now;
}

abbrev pub requeue_row : ℕ → ℕ → Option Consolidation → Db → Bool × Db
requeue_row t now none db = (false, db)
requeue_row t now (some c) db =
    if c.pending_successful_runs == 0
    then (false, db)
    else (true, update_consolidations (is_of t) (restart now) db)

unfoldable pub requeue : ℕ → ℕ → Db → Bool × Db
requeue t now db = requeue_row t now (consolidation_row t db) db
