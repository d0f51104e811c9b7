-- ===== src/Registry/Handover.antt =====
-- start_run hands a run over to its task in the state that the task relies on.
use globuy.Prelude.{
  ℕ, ◌≡◌, refl, Bool, true, false, Option, none, some, ◌==◌, any, inl, inr, Bool-cases,
  Option-cases, ==-refl, find_first-delete_none, arith,
}
use globuy.Sessions.Schema.{Db, Response, run_started, Operation, is_live, from_iso}
use globuy.Sessions.Action.{Result, ok, err, run, settle}
use globuy.Sessions.Rows.{
  stored_response, run_row, insert_run, insert_message, insert_key, user_exists,
}
use globuy.Sessions.Runs.{create_run, request_run, admit_run, write_run, fresh_run}
use globuy.Sessions.Sound.{IsSound}
use globuy.Sessions.SoundRuns.{create_run-IsSound}
use globuy.Broker.Stream.{fresh_stream}
use globuy.Broker.Table.{
  EventBroker, find_stream, ensure_stream, prune, has_key, is_expired, or_open,
}
use globuy.Registry.Task.{World}
use globuy.Registry.Streams.{HasOpen}
use globuy.Registry.Rows.{HasLive}
use globuy.Registry.Ready.{IsReady, KeepsReady, clear_thread-IsReady}
use globuy.Registry.Control.{and_then, find_handle, clear_thread}
use globuy.Registry.Starts.{
  StartRun, Started, names_run, new_handle, start_run, request_start, start_task,
}

-- What create_run leaves behind where it returns the response of the new run.
abbrev Records : StartRun → ℕ → Result Response × Db → Type 0
Records a answer_id (err e, db) = Unit {0}
Records a answer_id (ok got, db) =
    names_run a.run_id got ≡ true
    → (run_row a.thread_id a.run_id db
        ≡ some (fresh_run a.run_id a.thread_id a.query (from_iso a.created_at)))
      × (any (λ y. y.message_id == answer_id) db.messages ≡ false)

write_run-Records :
    (is_space : ℕ → Bool) (a : StartRun) (answer_id : ℕ) (response : Response) (db : Db)
    → (a.message_id == answer_id) ≡ false
    → any (λ y. y.message_id == answer_id) db.messages ≡ false
    → Records a answer_id (
        write_run is_space a.user_id a.thread_id a.run_id a.query a.client_request_id a.message_id
          (from_iso a.created_at)
          response
          db)
unfolding write_run run insert_run insert_message insert_key run_row user_exists
write_run-Records is_space a answer_id response db other unused = ground arith

settle-Records :
    (a : StartRun) (answer_id : ℕ) (db : Db) (r : Result Response × Db)
    → Records a answer_id r
    → Records a answer_id (settle db r)
settle-Records a answer_id db (ok got, after) h = h
settle-Records a answer_id db (err e, after) h = tt

create_run-Records :
    (is_space : ℕ → Bool) (a : StartRun) (answer_id : ℕ) (response : Response) (w : World)
    → (a.message_id == answer_id) ≡ false
    → IsReady a answer_id w
    → Records a answer_id (
        create_run is_space a.user_id a.thread_id a.run_id a.query a.client_request_id a.message_id
          a.created_at response w.db)
unfolding create_run admit_run run
create_run-Records is_space a answer_id response w other y =
    let wrote = write_run-Records is_space a answer_id response w.db other y.no_answer in
    let stored = stored_response a.user_id a.client_request_id Operation.create_run w.db in
    settle-Records a answer_id w.db
      (request_run is_space a.user_id a.thread_id a.run_id a.query a.client_request_id a.message_id
        a.created_at response w.db)
      (elim (Option-cases stored) [
        | inl new ↦ ground (arith, new, wrote)
        | inr (got, old) ↦ ground (arith, old, y.no_key got old)
      ])

prune_missing :
    (t r now : ℕ) (b : EventBroker)
    → find_stream t r b ≡ none
    → find_stream t r (prune now b) ≡ none
unfolding find_stream prune
prune_missing t r now b missing =
    find_first-delete_none (has_key t r) (is_expired b.retention now) b.streams missing

find_opened :
    (t r : ℕ) (b : EventBroker)
    → find_stream t r (or_open t r b none).1 ≡ some (fresh_stream t r b.buffer_size)
unfolding find_stream fresh_stream
find_opened t r b = rw (==-refl t, ==-refl r) refl

fresh-HasOpen :
    (t r now : ℕ) (b : EventBroker)
    → find_stream t r b ≡ none
    → HasOpen t r (ensure_stream t r now b).1
unfolding ensure_stream fresh_stream prune
fresh-HasOpen t r now b missing = record {
  stream = fresh_stream t r b.buffer_size;
  found = rw (prune_missing t r now b missing) (find_opened t r (prune now b));
  unended = refl;
  undated = refl;
}

-- What a start leaves behind where it has created a task.
abbrev pub HandsOver : StartRun → ℕ → Result Started × World → Type 0
HandsOver a answer_id (err e, w) = Unit {0}
HandsOver a answer_id (ok (response, none), w) = Unit {0}
HandsOver a answer_id (ok (response, some h), w) =
    (h ≡ new_handle a)
    × HasLive a.thread_id a.run_id answer_id w.db
    × HasOpen a.thread_id a.run_id w.broker
    × (find_handle a.thread_id w ≡ some h)

module _ (a : StartRun) (answer_id : ℕ) (other : (a.message_id == answer_id) ≡ false) where
  start_task-HandsOver :
      (response : Response) (stored : Result Response) (w : World)
      → IsSound w.db
      → find_stream a.thread_id a.run_id w.broker ≡ none
      → Records a answer_id (stored, w.db)
      → HandsOver a answer_id (start_task a response stored w)
  unfolding is_live
  start_task-HandsOver response (err e) w s missing wrote = tt
  start_task-HandsOver response (ok got) w s missing wrote =
      elim (Bool-cases (names_run a.run_id got)) [
        | inl new ↦ rw new (
          refl,
          record {
            sound = s;
            row = fresh_run a.run_id a.thread_id a.query (from_iso a.created_at);
            found = (wrote new).0;
            live = refl;
            fresh = (wrote new).1;
          },
          fresh-HasOpen a.thread_id a.run_id a.now w.broker missing,
          rw (==-refl a.thread_id) refl,
        )
        | inr old ↦ rw old tt
      ]

  request_start-HandsOver :
      (is_space : ℕ → Bool) (replaced : Option ℕ) (w : World)
      → IsReady a answer_id w
      → HandsOver a answer_id (request_start is_space a replaced w)
  request_start-HandsOver is_space replaced w y =
      let response : Response = run_started a.thread_id a.run_id replaced a.created_at in
      let (stored, db) =
        create_run is_space a.user_id a.thread_id a.run_id a.query a.client_request_id a.message_id
          a.created_at response w.db in
      start_task-HandsOver response stored (record w { db = db })
        (create_run-IsSound is_space a.user_id a.thread_id a.run_id a.query a.client_request_id
          a.message_id a.created_at response w.db y.sound)
        y.no_stream (create_run-Records is_space a answer_id response w other y)

  and_then-HandsOver :
      (is_space : ℕ → Bool) (r : Result (Option ℕ) × World)
      → IsReady a answer_id r.1
      → HandsOver a answer_id (and_then (request_start is_space a) r)
  and_then-HandsOver is_space (ok replaced, w) y = request_start-HandsOver is_space replaced w y
  and_then-HandsOver is_space (err e, w) y = tt

  pub start_run-HandsOver :
      (closing : Bool) (waits : World → World × Bool) (is_space : ℕ → Bool) (w : World)
      → KeepsReady a answer_id waits
      → IsReady a answer_id w
      → HandsOver a answer_id (start_run closing waits is_space a w)
  unfolding start_run
  start_run-HandsOver true waits is_space w keeps y = tt
  start_run-HandsOver false waits is_space w keeps y =
      elim (Option-cases
        (stored_response a.user_id a.client_request_id Operation.create_run w.db)) [
          | inl new ↦ rw new (
              and_then-HandsOver is_space (clear_thread waits a.now (find_handle a.thread_id w) w) (
                clear_thread-IsReady a answer_id waits a.now (find_handle a.thread_id w) w keeps y))
          | inr (got, old) ↦ rw old tt
        ]
