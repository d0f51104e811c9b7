-- ===== src/Registry/Ready.antt =====
-- What start_run finds when it has waited for a task that it replaces.
use globuy.Prelude.{
  ℕ, ◌≡◌, refl, sym, count_if, ◌∙◌, Bool, true, false, Option, none, some, ◌==◌, any, inl, inr,
  Bool-cases, arith,
}
use globuy.Sessions.Schema.{
  Db, Run, RunStatus, Response, Operation, is_terminal, is_live, cancelling,
}
use globuy.Sessions.Action.{Result, ok, err, run}
use globuy.Sessions.Rows.{is_run, stored_response, run_row}
use globuy.Sessions.Runs.{RunView, get_run, set_run_status}
use globuy.Sessions.Sound.{IsSound}
use globuy.Broker.Table.{find_stream}
use globuy.Registry.Task.{World, RunHandle}
use globuy.Registry.Rows.{set_run_status-HasLive}
use globuy.Registry.Control.{
  Call, and_then, request_stop, begin_cancel, wait_done, check_ended, wait_viewed, cancel_and_wait,
  clear_thread, is_cancelling,
}
use globuy.Registry.Starts.{StartRun, names_run}

-- Sound tables; the new run's identifier and its answer's are unused.
pub record IsReady (a : StartRun) (answer_id : ℕ) (w : World) : Type 0 where
  pub sound : IsSound w.db
  pub no_key :
      (got : Response)
      → stored_response a.user_id a.client_request_id Operation.create_run w.db ≡ some got
      → names_run a.run_id got ≡ false
  pub no_answer : any (λ y. y.message_id == answer_id) w.db.messages ≡ false
  pub no_stream : find_stream a.thread_id a.run_id w.broker ≡ none

stored-set :
    (t r now u request : ℕ) (db : Db)
    → stored_response u request Operation.create_run
        (set_run_status t r cancelling none none now db).1
      ≡ stored_response u request Operation.create_run db
unfolding set_run_status run stored_response
stored-set t r now u request db = elim (Bool-cases (count_if (is_run t r) db.runs == 1)) [
  | inl one ↦ rw one refl
  | inr other ↦ rw other refl
]

pub get_run-row :
    (t r : ℕ) (db : Db) (v : RunView) → (get_run t r none db).0 ≡ ok v → run_row t r db ≡ some v.run
unfolding get_run run
get_run-row t r db v h = ground arith

open_is_live : (status : RunStatus) → is_terminal status ≡ false → is_live status ≡ true
unfolding is_terminal is_live
open_is_live status h = ground arith

and_then_keeps :
    (P : World → Type 0) {A B : Type 0} (k : A → Call B) (r : Result A × World)
    → ((x : A) (w : World) → P w → P (k x w).1)
    → P r.1
    → P (and_then k r).1
and_then_keeps P k (ok x, w) h p = h x w p
and_then_keeps P k (err e, w) h p = p

module _ (a : StartRun) (answer_id : ℕ) where
  stop-IsReady :
      (t r : ℕ) (got : Result (Unit {0})) (w : World)
      → IsReady a answer_id w
      → IsReady a answer_id (request_stop t r got w).1
  stop-IsReady t r (err e) w y = y
  stop-IsReady t r (ok u) w y = record {
    sound = y.sound;
    no_key = y.no_key;
    no_answer = y.no_answer;
    no_stream = y.no_stream;
  }

  begin_cancel-IsReady :
      (now : ℕ) (h : RunHandle) (x : Run) (w : World)
      → run_row h.thread_id h.run_id w.db ≡ some x
      → is_terminal x.status ≡ false
      → IsReady a answer_id w
      → IsReady a answer_id (begin_cancel now h.run_id h w).1
  unfolding begin_cancel stored_response is_live
  begin_cancel-IsReady now h x w found open_yet y = elim (Bool-cases (is_cancelling h.status)) [
    | inl asked ↦ rw asked y
    | inr quiet ↦
        let kept =
          set_run_status-HasLive h.thread_id h.run_id answer_id cancelling now w.db refl (record {
            sound = y.sound;
            row = x;
            found = found;
            live = open_is_live x.status open_yet;
            fresh = y.no_answer;
          }) in
        rw quiet (
          stop-IsReady h.thread_id h.run_id _ _ (record {
            sound = kept.1.sound;
            no_key = λ got e.
                y.no_key got (
                  sym (stored-set h.thread_id h.run_id now a.user_id a.client_request_id w.db) ∙ e);
            no_answer = kept.1.fresh;
            no_stream = y.no_stream;
          }))
  ]

  -- What the other tasks do while a call waits for a task keeps the identifiers unused.
  abbrev pub KeepsReady : (World → World × Bool) → Type 0
  KeepsReady waits = (w : World) → IsReady a answer_id w → IsReady a answer_id (waits w).0

  check_ended-IsReady :
      (got : Result RunView) (r : ℕ) (w : World)
      → IsReady a answer_id w
      → IsReady a answer_id (check_ended got r w).1
  check_ended-IsReady (err e) r w y = y
  check_ended-IsReady (ok v) r w y = y

  wait_viewed-IsReady :
      (waits : World → World × Bool) (now : ℕ) (h : RunHandle) (got : Result RunView) (w : World)
      → (get_run h.thread_id h.run_id none w.db).0 ≡ got
      → KeepsReady waits
      → IsReady a answer_id w
      → IsReady a answer_id (wait_viewed waits now h got w).1
  wait_viewed-IsReady waits now h (err e) w seen keeps y = y
  wait_viewed-IsReady waits now h (ok v) w seen keeps y =
      elim (Bool-cases (is_terminal v.run.status)) [
        | inl over ↦ rw over (keeps w y)
        | inr open_yet ↦
            let ends : Unit {0} → Call (Unit {0}) =
              λ _ w'. check_ended (get_run h.thread_id h.run_id none w'.db).0 h.run_id w' in
            let begun = begin_cancel now h.run_id h w in
            let asked : IsReady a answer_id begun.1 =
              begin_cancel-IsReady now h v.run w (get_run-row h.thread_id h.run_id w.db v seen)
                open_yet y in
            rw open_yet (
              and_then_keeps (IsReady a answer_id) ends
                (and_then (λ _. wait_done waits h.run_id) begun)
                (λ _ w' y'.
                  check_ended-IsReady (get_run h.thread_id h.run_id none w'.db).0 h.run_id w' y')
                (and_then_keeps (IsReady a answer_id) (λ _. wait_done waits h.run_id) begun
                  (λ _ w' y'. keeps w' y') asked))
      ]

  pub clear_thread-IsReady :
      (waits : World → World × Bool) (now : ℕ) (previous : Option RunHandle) (w : World)
      → KeepsReady waits
      → IsReady a answer_id w
      → IsReady a answer_id (clear_thread waits now previous w).1
  unfolding cancel_and_wait
  clear_thread-IsReady waits now none w keeps y = y
  clear_thread-IsReady waits now (some h) w keeps y =
      let named : Unit {0} → Call (Option ℕ) = λ _ w'. (ok (some h.run_id), w') in
      and_then_keeps (IsReady a answer_id) named (cancel_and_wait waits now h w) (λ _ w' y'. y')
        (wait_viewed-IsReady waits now h (get_run h.thread_id h.run_id none w.db).0 w refl keeps y)
