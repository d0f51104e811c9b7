-- ===== src/Sessions/Tests.antt =====
-- The store on concrete tables.
use globuy.Prelude.{any, ℕ, ◌≤◌, ◌≡◌, refl, Bool, true, false, none, some, [], ◌∷◌, count_if, ◌==◌}
use globuy.Sessions.Schema.{
  Db, Text, Response, thread_created, run_started, cancelling, is_terminal, is_live, iso, from_iso,
  succeeded, failed,
}
use globuy.Sessions.Action.{ok, err, integrity_error, active_thread_changed, run}
use globuy.Sessions.Rows.{
  is_live_run_of, is_active_of, insert_thread, insert_key, insert_run, insert_message,
  insert_result, insert_consolidation, user_exists, stored_response, active_row, thread_row,
  live_run, run_row, consolidation_row, next_ordinal, is_occupied, max_ordinal,
}
use globuy.Sessions.Title.{title, split_from, join}
use globuy.Sessions.Threads.{
  replace_thread, request_thread, replace_active, open_thread, retire, put_away, archive_thread,
}
use globuy.Sessions.Runs.{
  create_run, admit_run, write_run, finish_run, set_run_status, StoreConfig, Outcome, close_run,
  fresh_run, write_outcome, add_answer, consolidate_later,
}
use globuy.Sessions.Sound.{IsSound, is_result_of, is_active_thread, empty-IsSound}
use globuy.Sessions.SoundThreads.{replace_thread-IsSound}
use globuy.Sessions.SoundRuns.{create_run-IsSound, finish_run-IsSound}
use globuy.Sessions.Calls.{
  creates, replaces, finishes, perform, Reach, here, next, Reach-IsSound, one_run_at_a_time,
  error_changes_nothing,
}
use globuy.Sessions.Replay.{create_run_replay, replace_thread_replay}
use globuy.Sessions.Finish.{first_outcome_wins}
use globuy.Sessions.Revival.{revived_run_is_stuck}

abbrev blank : ℕ → Bool
blank c = c == 32

abbrev config : StoreConfig
config = record { memory_run_threshold = 5; memory_idle_seconds = 3600 }

abbrev nobody_active : Db
nobody_active = record {
  users = 1 ∷ [];
  threads = [];
  runs = [];
  results = [];
  messages = [];
  consolidations = [];
  keys = [];
}

-- User 1 opens thread 10.
abbrev opened : Db
opened = (replace_thread 1 none 100 10 5000 nobody_active).1

abbrev asked : Text
asked = 104 ∷ 32 ∷ 105 ∷ []

abbrev answer_7 : Response
answer_7 = run_started 10 7 none 6

-- Run 7 starts in it.
abbrev started : Db
started = (create_run blank 1 10 7 asked 101 50 6 answer_7 opened).1

abbrev won : Outcome
won = record {
  status = succeeded;
  final_text = 111 ∷ [];
  result = none;
  message_id = 51;
  is_partial = false;
  error_code = none;
  error_message = none;
}

abbrev lost : Outcome
lost = record won { status = failed; message_id = 52; error_code = some "LATE" }

-- Run 7 succeeds.
abbrev finished : Db
finished = (finish_run config 10 7 won 9000 started).1

-- A proof that runs the store names this, which opens its operations.
unfoldable code : Db → Db
unfolding replace_thread request_thread replace_active open_thread retire put_away archive_thread
    create_run admit_run write_run finish_run write_outcome add_answer consolidate_later
    set_run_status run insert_thread insert_key insert_run insert_message insert_result
    insert_consolidation user_exists stored_response active_row thread_row live_run run_row
    next_ordinal max_ordinal is_occupied consolidation_row iso from_iso title split_from join
    is_terminal is_live
code db = db

opened-IsSound : IsSound opened
opened-IsSound = replace_thread-IsSound 1 none 100 10 5000 nobody_active (empty-IsSound (1 ∷ []))

started-IsSound : IsSound started
started-IsSound = create_run-IsSound blank 1 10 7 asked 101 50 6 answer_7 opened opened-IsSound

finished-IsSound : IsSound finished
unfolding is_terminal
finished-IsSound = finish_run-IsSound config 10 7 won 9000 started refl started-IsSound

opened_run :
    replace_thread 1 none 100 10 5000 nobody_active ≡ (ok (thread_created 10 5 none none), opened)
unfolding code
opened_run = refl

started_run : create_run blank 1 10 7 asked 101 50 6 answer_7 opened ≡ (ok answer_7, started)
unfolding code
started_run = refl

started_row : run_row 10 7 started ≡ some (fresh_run 7 10 asked 6000)
unfolding code
started_row = refl

finished_row :
    run_row 10 7 finished ≡ some (close_run succeeded none none 9000 (fresh_run 7 10 asked 6000))
unfolding code
finished_row = refl

started_is_live : is_live (fresh_run 7 10 asked 6000).status ≡ true
unfolding is_live
started_is_live = refl

won_ends : is_terminal succeeded ≡ true
unfolding is_terminal
won_ends = refl

fresh_message : any (λ y. y.message_id == 51) started.messages ≡ false
unfolding code
fresh_message = refl

has_result : any (is_result_of 7) finished.results ≡ true
unfolding code
has_result = refl

abbrev reached : Db
reached =
    (perform blank config (creates 1 10 8 asked 102 53 10 answer_7)
      (perform blank config (finishes 10 7 won 9000)
        (perform blank config (creates 1 10 7 asked 101 50 6 answer_7)
          (perform blank config (replaces 1 none 100 10 5000) nobody_active).1).1).1).1

-- Thread 10 is opened, run 7 starts and succeeds, and a second run starts.
calls : Reach blank config nobody_active reached
unfolding is_terminal
calls =
    next (creates 1 10 8 asked 102 53 10 answer_7)
      (next (finishes 10 7 won 9000)
        (next (creates 1 10 7 asked 101 50 6 answer_7) (next (replaces 1 none 100 10 5000) here tt)
          tt)
        refl)
      tt

Reach-IsSound_example : IsSound reached
Reach-IsSound_example = Reach-IsSound blank config (empty-IsSound (1 ∷ [])) calls

one_run_at_a_time_example :
    (count_if (is_active_of 1) reached.threads ≤ 1)
    × (count_if (is_live_run_of 10) reached.runs ≤ 1)
    × (count_if (is_live_run_of 10) reached.runs ≤ count_if (is_active_thread 10) reached.threads)
one_run_at_a_time_example = one_run_at_a_time blank config (1 ∷ []) calls 1 10

-- A client that does not know of thread 10 asks for a new thread.
stale_fails :
    (perform blank config (replaces 1 none 103 11 9500) finished).0
    ≡ err (active_thread_changed (some 10))
unfolding code perform
stale_fails = refl

error_changes_nothing_example :
    (perform blank config (replaces 1 none 103 11 9500) finished).1 ≡ finished
error_changes_nothing_example =
    error_changes_nothing blank config (replaces 1 none 103 11 9500) finished
      (active_thread_changed (some 10)) finished-IsSound stale_fails

create_run_replay_example :
    create_run blank 1 10 8 [] 101 60 7 answer_7 started ≡ (ok answer_7, started)
create_run_replay_example =
    create_run_replay blank 1 101 10 7 asked 50 6 answer_7 opened started_run 10 8 [] 60 7 answer_7

replace_thread_replay_example :
    replace_thread 1 (some 10) 100 11 7000 opened ≡ (ok (thread_created 10 5 none none), opened)
replace_thread_replay_example =
    replace_thread_replay 1 100 none 10 5000 nobody_active opened_run (some 10) 11 7000

first_outcome_wins_example :
    let (got, after) = finish_run config 10 7 won 9000 started in
    (got ≡ ok tt)
    × (run_row 10 7 after ≡ some (close_run succeeded none none 9000 (fresh_run 7 10 asked 6000)))
    × (finish_run config 10 7 lost 9100 after ≡ (ok tt, after))
first_outcome_wins_example =
    first_outcome_wins config 10 7 (fresh_run 7 10 asked 6000) won 9000 started started-IsSound
      started_row started_is_live won_ends fresh_message lost 9100

revived_run_is_stuck_example :
    let (got, mid) = set_run_status 10 7 cancelling none none 9200 finished in
    (got ≡ ok tt)
    × (run_row 10 7 mid
        ≡ some (record (close_run succeeded none none 9000 (fresh_run 7 10 asked 6000)) {
          status = cancelling;
        }))
    × (finish_run config 10 7 lost 9300 mid ≡ (err integrity_error, mid))
revived_run_is_stuck_example =
    revived_run_is_stuck config 10 7
      (close_run succeeded none none 9000 (fresh_run 7 10 asked 6000)) 9200 finished
      finished-IsSound finished_row won_ends has_result lost 9300
