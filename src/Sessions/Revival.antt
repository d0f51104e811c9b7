-- ===== src/Sessions/Revival.antt =====
-- set_run_status on a run that has ended, as RunRegistry.cancel_run makes it when the run ends
-- between its look at the status and its update (app/api/run_registry.py).
use globuy.Prelude.{
  ℕ, ◌≡◌, refl, true, none, some, any, count_if, ◌∙◌, arith, find_first-some, find_first-update,
  count_if_mono,
}
use globuy.Sessions.Schema.{Db, Run, cancelling, is_terminal}
use globuy.Sessions.Action.{ok, err, integrity_error, settle, run}
use globuy.Sessions.Rows.{is_run, update_runs, run_row, insert_result}
use globuy.Sessions.Runs.{set_run_status, finish_run, write_outcome, StoreConfig, Outcome, mark}
use globuy.Sessions.Sound.{IsSound, has_run_id, is_result_of}
use globuy.Sessions.Finish.{finish_run_open}

write_outcome_twice :
    (cfg : StoreConfig) (t r : ℕ) (o : Outcome) (now : ℕ) (db : Db)
    → any (is_result_of r) db.results ≡ true
    → settle db (write_outcome cfg t r o now db) ≡ (err integrity_error, db)
unfolding write_outcome run insert_result
write_outcome_twice cfg t r o now db has = ground arith

set_once :
    (t r : ℕ) (now : ℕ) (db : Db)
    → count_if (is_run t r) db.runs ≡ 1
    → set_run_status t r cancelling none none now db
      ≡ (ok tt, update_runs (is_run t r) (mark cancelling none none now) db)
unfolding set_run_status run
set_once t r now db once = ground arith

-- In sound tables, a run that has ended with a result is set back to cancelling without an error, and a
-- finish_run of it then raises, whatever its outcome, and leaves it cancelling.
pub revived_run_is_stuck :
    (cfg : StoreConfig) (t r : ℕ) (x : Run) (now : ℕ) (db : Db)
    → IsSound db
    → run_row t r db ≡ some x
    → is_terminal x.status ≡ true
    → any (is_result_of r) db.results ≡ true
    → (o : Outcome) (now' : ℕ)
    → let (got, mid) = set_run_status t r cancelling none none now db in
      (got ≡ ok tt)
      × (run_row t r mid ≡ some (record x { status = cancelling }))
      × (finish_run cfg t r o now' mid ≡ (err integrity_error, mid))
revived_run_is_stuck cfg t r x now db s found over has o now' =
    let mid : Db = update_runs (is_run t r) (mark cancelling none none now) db in
    let once : count_if (is_run t r) db.runs ≡ 1 = omega (
      arith,
      s.run_key r,
      count_if_mono (is_run t r) (has_run_id r) db.runs (λ y h. ground arith),
      find_first-some (is_run t r) db.runs x (unfold run_row in found),
    ) in
    let row : run_row t r mid ≡ some (mark cancelling none none now x) =
      unfold run_row in
      find_first-update (is_run t r) (mark cancelling none none now) db.runs x (λ y h. h) found in
    rw (set_once t r now db once) (
      refl,
      row ∙ unfold is_terminal in refl,
      finish_run_open cfg t r (mark cancelling none none now x) o now' mid row
            (unfold is_terminal in refl)
          ∙ write_outcome_twice cfg t r o now' mid has,
    )
