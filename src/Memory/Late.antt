-- ===== src/Memory/Late.antt =====
-- What a worker's end of a claim leaves: nothing if the claim is another's by then, else a row
-- that is free again, or given up.
use globuy.Prelude.{
  zero, ℕ, suc, ◌+◌, ◌*◌, ◌≤◌, ◌<◌, ◌≡◌, refl, ap, ◌∙◌, true, false, Option, none, some, ◌==◌, leb,
  arith, find_first-update,
}
use globuy.Sessions.Schema.{Db, Text, Consolidation}
use globuy.Sessions.Rows.{update_consolidations, consolidation_row}
use globuy.Memory.Consolidation.{
  WorkerConfig, is_claimable, Claim, is_of, claim, if_held, complete, retry_delay, retry_seconds,
  fail_row, fail, restart, requeue_row, requeue,
}
use globuy.Memory.Claims.{next_due_found, claim_row-some, held_row}

if_held_not :
    (token t : ℕ) (f : Consolidation → Consolidation) (o : Option Consolidation) (db : Db)
    (c : Consolidation) (other : ℕ)
    → o ≡ some c
    → c.claim_token ≡ some other
    → (other == token) ≡ false
    → if_held token t f o db ≡ db
if_held_not token t f none db c other h k e = cc
if_held_not token t f (some d) db c other h k e = ground arith

-- A worker whose claim has run out, and whose thread another one has claimed since, changes
-- nothing, whether it completes or fails.
pub late_worker_changes_nothing :
    (cfg : WorkerConfig) (token now' token' : ℕ) (db : Db) {y : Claim} {held : Db}
    → (token' == token) ≡ false
    → claim cfg now' token' db ≡ (some y, held)
    → (snapshot run_count now : ℕ) (error_code : Text)
    → (complete token y.thread_id snapshot run_count now held ≡ held)
      × (fail token y.thread_id now error_code held ≡ held)
unfolding claim complete fail consolidation_row
late_worker_changes_nothing cfg token now' token' db {y} {held} differ h snapshot run_count now
      error_code =
    let (c, taken, y_thread, held_is, _) = claim_row-some now' token' _ db h in
    let (d, found, kept) =
      held_row c.thread_id now' token' db.consolidations
        (next_due_found cfg.lease now' db.consolidations c taken) in
    let row : consolidation_row y.thread_id held ≡ some d =
      unfold consolidation_row in rw (y_thread, held_is) found in
    (
      if_held_not token y.thread_id _ _ held d token' (unfold consolidation_row in row) kept differ,
      if_held_not token y.thread_id _ _ held d token' (unfold consolidation_row in row) kept differ,
    )

pub if_held_row :
    (token t : ℕ) (f : Consolidation → Consolidation) (db : Db) (c : Consolidation)
    → consolidation_row t db ≡ some c
    → c.claim_token ≡ some token
    → ((x : Consolidation) → (f x).thread_id ≡ x.thread_id)
    → consolidation_row t (if_held token t f (consolidation_row t db) db) ≡ some (f c)
unfolding consolidation_row
if_held_row token t f db c row held keeps = rw row (
    rw held (
      ground (
        arith,
        find_first-update (is_of t) f db.consolidations c (λ x h. ground (arith, keeps x)) row,
      )))

retry_delay_bounds :
    (n : ℕ)
    → (n < 3 → (d : ℕ) × (retry_delay n retry_seconds ≡ some d) × (60 ≤ d) × (d ≤ 1800))
      × (3 ≤ n → retry_delay n retry_seconds ≡ none)
unfolding retry_delay
retry_delay_bounds zero = (λ h. (60, refl, omega arith, omega arith), λ h. absurd (omega arith))
retry_delay_bounds (suc zero) =
    (λ h. (300, refl, omega arith, omega arith), λ h. absurd (omega arith))
retry_delay_bounds (suc (suc zero)) =
    (λ h. (1800, refl, omega arith, omega arith), λ h. absurd (omega arith))
retry_delay_bounds (suc (suc (suc n))) = (λ h. absurd (omega arith), λ h. refl)

-- A claimed row whose worker fails: the first three times since its last success, it may be claimed
-- again after a delay of 60 to 1800 seconds and not before, after that at no time.
failed_row_retries :
    (lease token t now : ℕ) (error_code : Text) (db : Db) (c : Consolidation)
    → consolidation_row t db ≡ some c
    → c.claim_token ≡ some token
    → c.dead_lettered_at ≡ none
    → 1 ≤ c.pending_successful_runs
    → (after : Consolidation) × (consolidation_row t (fail token t now error_code db) ≡ some after)
      × (after.attempts ≡ c.attempts + 1)
      × (c.attempts < 3
          → (seconds : ℕ) × (60 ≤ seconds)
            × (seconds ≤ 1800)
            × ((later : ℕ) → is_claimable lease later after ≡ leb (now + seconds * 1000000) later))
      × (3 ≤ c.attempts → (later : ℕ) → is_claimable lease later after ≡ false)
unfolding fail
failed_row_retries lease token t now error_code db c row held alive pending = (
  fail_row now error_code c,
  if_held_row token t (fail_row now error_code) db c row held (λ x. refl),
  refl,
  λ few.
      let (d, delay, least, most) = (retry_delay_bounds c.attempts).0 few in
      (d, least, most, λ later. rw (delay, alive) (ground arith)),
  λ many later. rw ((retry_delay_bounds c.attempts).1 many) (ground arith),
)

requeue_some :
    (t now : ℕ) (c : Consolidation) (db : Db)
    → 1 ≤ c.pending_successful_runs
    → requeue_row t now (some c) db ≡ (true, update_consolidations (is_of t) (restart now) db)
requeue_some t now c db pending = ground arith

restart_row :
    (t now : ℕ) (c : Consolidation) (db : Db)
    → consolidation_row t db ≡ some c
    → consolidation_row t (update_consolidations (is_of t) (restart now) db) ≡ some (restart now c)
unfolding consolidation_row
restart_row t now c db row =
    find_first-update (is_of t) (restart now) db.consolidations c (λ x h. h) row

-- A row with pending runs that is requeued, dead letter or not, may be claimed at once.
requeued_row_is_claimable :
    (lease t now : ℕ) (db : Db) (c : Consolidation)
    → consolidation_row t db ≡ some c
    → 1 ≤ c.pending_successful_runs
    → let (done, mid) = requeue t now db in
      (done ≡ true)
      × ((after : Consolidation) × (consolidation_row t mid ≡ some after)
          × (is_claimable lease now after ≡ true))
unfolding requeue
requeued_row_is_claimable lease t now db c row pending =
    rw (ap (λ o. requeue_row t now o db) row ∙ requeue_some t now c db pending)
      (refl, (restart now c, restart_row t now c db row, ground arith))
