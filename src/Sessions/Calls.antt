-- ===== src/Sessions/Calls.antt =====
-- The store as a state machine: the calls that change its tables, and the states that they reach.
use Prim.Native.String.{String}
use globuy.Prelude.{
  ℕ, ◌≤◌, ◌≡◌, refl, Bool, true, false, ◌&&◌, Option, List, [], any, count_if, arith, count_if_mono,
  update_where_none,
}
use globuy.Sessions.Schema.{Db, Text, RunStatus, Response, is_terminal}
use globuy.Sessions.Action.{Result, ok, err, Error, run}
use globuy.Sessions.Rows.{is_run, is_live_run_of, is_active_of, is_thread}
use globuy.Sessions.Threads.{recover_after_restart, replace_thread}
use globuy.Sessions.Runs.{create_run, set_run_status, finish_run, StoreConfig, Outcome, mark}
use globuy.Sessions.Hoare.{transaction_rolls_back}
use globuy.Sessions.Sound.{IsSound, is_active_thread, has_run_id, empty-IsSound}
use globuy.Sessions.SoundThreads.{recover_after_restart-IsSound, replace_thread-IsSound}
use globuy.Sessions.SoundRuns.{create_run-IsSound, finish_run-IsSound, set_run_status-IsSound}

-- One call with its arguments, the clock and the fresh identifiers among them.
pub data Call : Type 0 where
  recovers : (now : ℕ) (message : Text) → Call
  replaces : (user_id : ℕ) (current : Option ℕ) (request thread_id now : ℕ) → Call
  creates :
      (user_id thread_id run_id : ℕ) (query : Text) (request message_id created : ℕ)
      (response : Response)
      → Call
  sets :
      (thread_id run_id : ℕ) (status : RunStatus) (code : Option String) (message : Option Text)
      (now : ℕ)
      → Call
  finishes : (thread_id run_id : ℕ) (outcome : Outcome) (now : ℕ) → Call

abbrev forget : {A : Type 0} → Result A × Db → Result (Unit {0}) × Db
forget (ok a, db) = (ok tt, db)
forget (err e, db) = (err e, db)

module _ (is_space : ℕ → Bool) (cfg : StoreConfig) where
  unfoldable pub perform : Call → Db → Result (Unit {0}) × Db
  perform (recovers now message) db = forget (recover_after_restart now message db)
  perform (replaces u current request t now) db = forget (replace_thread u current request t now db)
  perform (creates u t r query request m created response) db =
      forget (create_run is_space u t r query request m created response db)
  perform (sets t r status code message now) db = set_run_status t r status code message now db
  perform (finishes t r outcome now) db = finish_run cfg t r outcome now db

  -- The calls that keep to the protocol of the run registry: a run is ended with a terminal status
  -- only, and the status of a run is set only while it has not ended.
  abbrev pub Permitted : Call → Db → Type 0
  Permitted (sets t r status code message now) db =
      any (λ x. is_run t r x && is_terminal x.status) db.runs ≡ false
  Permitted (finishes t r outcome now) db = is_terminal outcome.status ≡ true
  Permitted _ db = Unit {0}

  pub data Reach (start : Db) : Db → Type 0 where
    here : Reach start start
    next : {db : Db} (c : Call) → Reach start db → Permitted c db → Reach start (perform c db).1

  forget_state : {A : Type 0} (r : Result A × Db) → (forget r).1 ≡ r.1
  forget_state (ok a, db) = refl
  forget_state (err e, db) = refl

  perform-IsSound : (c : Call) (db : Db) → Permitted c db → IsSound db → IsSound (perform c db).1
  unfolding perform
  perform-IsSound (recovers now message) db p s =
      rw (forget_state (recover_after_restart now message db))
        (recover_after_restart-IsSound now message db s)
  perform-IsSound (replaces u current request t now) db p s =
      rw (forget_state (replace_thread u current request t now db))
        (replace_thread-IsSound u current request t now db s)
  perform-IsSound (creates u t r query request m created response) db p s =
      rw (forget_state (create_run is_space u t r query request m created response db))
        (create_run-IsSound is_space u t r query request m created response db s)
  perform-IsSound (sets t r status code message now) db p s =
      set_run_status-IsSound t r status code message now db p s
  perform-IsSound (finishes t r outcome now) db p s = finish_run-IsSound cfg t r outcome now db p s

  -- From sound tables, every sequence of permitted calls, failing or not, ends in sound tables.
  pub Reach-IsSound : {start db : Db} → IsSound start → Reach start db → IsSound db
  Reach-IsSound s here = s
  Reach-IsSound s (next {db = d} c r p) = perform-IsSound c d p (Reach-IsSound s r)

  -- Whatever permitted calls were made on empty tables, a user has at most one active thread, a thread has at
  -- most one run that has not ended, and such a run belongs to an active thread.
  pub one_run_at_a_time :
      (users : List ℕ) {db : Db}
      → Reach
          (record {
            users = users;
            threads = [];
            runs = [];
            results = [];
            messages = [];
            consolidations = [];
            keys = [];
          })
          db
      → (u t : ℕ)
      → (count_if (is_active_of u) db.threads ≤ 1)
        × (count_if (is_live_run_of t) db.runs ≤ 1)
        × (count_if (is_live_run_of t) db.runs ≤ count_if (is_active_thread t) db.threads)
  one_run_at_a_time users {db} r u t =
      let s : IsSound db = Reach-IsSound (empty-IsSound users) r in
      (
        s.one_active u,
        omega (
          arith,
          s.live_in_active t,
          s.thread_key t,
          count_if_mono (is_active_thread t) (is_thread t) db.threads (λ x h. ground arith),
        ),
        s.live_in_active t,
      )

  unforget : {A : Type 0} (r : Result A × Db) (e : Error) → (forget r).0 ≡ err e → r.0 ≡ err e
  unforget (ok a, db) e h = cc
  unforget (err x, db) e h = cc

  set_missing :
      (t r : ℕ) (status : RunStatus) (code : Option String) (message : Option Text) (now : ℕ)
      (db : Db) (e : Error)
      → IsSound db
      → (set_run_status t r status code message now db).0 ≡ err e
      → (set_run_status t r status code message now db).1 ≡ db
  unfolding set_run_status run
  set_missing t r status code message now db e s h = ground (
    arith,
    s.run_key r,
    count_if_mono (is_run t r) (has_run_id r) db.runs (λ x k. ground arith),
    update_where_none (is_run t r) (mark status code message now) db.runs,
  )

  -- From sound tables, a call that raises leaves every table as it was.
  pub error_changes_nothing :
      (c : Call) (db : Db) (e : Error)
      → IsSound db
      → (perform c db).0 ≡ err e
      → (perform c db).1 ≡ db
  unfolding perform recover_after_restart replace_thread create_run finish_run
  error_changes_nothing (recovers now message) db e s h =
      rw (forget_state (recover_after_restart now message db))
        (transaction_rolls_back _ db e (unforget _ e h))
  error_changes_nothing (replaces u current request t now) db e s h =
      rw (forget_state (replace_thread u current request t now db))
        (transaction_rolls_back _ db e (unforget _ e h))
  error_changes_nothing (creates u t r query request m created response) db e s h =
      rw (forget_state (create_run is_space u t r query request m created response db))
        (transaction_rolls_back _ db e (unforget _ e h))
  error_changes_nothing (sets t r status code message now) db e s h =
      set_missing t r status code message now db e s h
  error_changes_nothing (finishes t r outcome now) db e s h = transaction_rolls_back _ db e h
