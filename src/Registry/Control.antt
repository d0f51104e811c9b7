-- ===== src/Registry/Control.antt =====
-- start_run, create_thread, cancel_run and _cancel_and_wait of app/api/run_registry.py. The two locks
-- keep calls for one user and for one thread apart. What the other tasks do while a call waits is an
-- argument: for a lock, what becomes of the world; for `done_event`, also whether it was set in time.
use globuy.Prelude.{ℕ, Bool, true, false, Option, none, some, ◌==◌, find_first, if◌then◌else◌}
use globuy.Sessions.Schema.{RunStatus, cancelling, is_terminal}
use globuy.Sessions.Action.{
  Result, ok, err, run_not_found, run_replacement_timeout, run_cancellation_failed,
}
use globuy.Sessions.Runs.{RunView, get_run, set_run_status}
use globuy.Registry.Task.{World, RunHandle, change_handle}

-- A call: it may raise, and the world stays as far as it has come.
abbrev pub Call : Type 0 → Type 0
Call A = World → Result A × World

abbrev pub and_then : {A B : Type 0} → (A → Call B) → Result A × World → Result B × World
and_then k (ok a, w) = k a w
and_then k (err e, w) = (err e, w)

abbrev pub find_handle : ℕ → World → Option RunHandle
find_handle t w = find_first (λ h. h.thread_id == t) w.active

abbrev pub is_cancelling : RunStatus → Bool
is_cancelling cancelling = true
is_cancelling _ = false

-- `handle.task.cancel()`, unless the status could not be written.
abbrev pub request_stop : ℕ → ℕ → Result (Unit {0}) → World → Result (Unit {0}) × World
request_stop t r (err e) w = (err e, w)
request_stop t r (ok u) w = (ok tt, change_handle t r (λ h. record h { cancel_requested = true }) w)

-- A task that was asked to stop before and is asked again is as one that was asked once.
unfoldable pub begin_cancel : ℕ → ℕ → RunHandle → Call (Unit {0})
begin_cancel now r h w =
    if is_cancelling h.status
    then (ok tt, w)
    else (let marked = change_handle h.thread_id r (λ x. record x { status = cancelling }) w in
        let (got, db) = set_run_status h.thread_id r cancelling none none now marked.db in
        request_stop h.thread_id r got (record marked { db = db }))

pub record Cancellation : Type 0 where
  pub status : RunStatus
  pub requested_at : ℕ
  pub terminal : Bool

abbrev pub cancelling_now : ℕ → Cancellation
cancelling_now now = record { status = cancelling; requested_at = now; terminal = false }

abbrev pub cancel_handle : ℕ → ℕ → Option RunHandle → Call Cancellation
cancel_handle now r none w = (err run_not_found, w)
cancel_handle now r (some h) w =
    if h.run_id == r
    then and_then (λ _ w'. (ok (cancelling_now now), w')) (begin_cancel now r h w)
    else (err run_not_found, w)

abbrev pub cancel_viewed : (World → World) → ℕ → ℕ → ℕ → Result RunView → Call Cancellation
cancel_viewed lock now t r (err e) w = (err e, w)
cancel_viewed lock now t r (ok v) w =
    if is_terminal v.run.status
    then (ok (record { status = v.run.status; requested_at = now; terminal = true }), w)
    else cancel_handle now r (find_handle t (lock w)) (lock w)

unfoldable pub cancel_run : (World → World) → ℕ → ℕ → ℕ → Call Cancellation
unfolding begin_cancel
cancel_run lock now t r w = cancel_viewed lock now t r (get_run t r none w.db).0 w

-- The waiting for `done_event`, and what follows it.
abbrev pub wait_done : (World → World × Bool) → ℕ → Call (Unit {0})
wait_done waits r w =
    let (w', done) = waits w in (if done then ok tt else err (run_replacement_timeout r), w')

abbrev pub check_ended : Result RunView → ℕ → Call (Unit {0})
check_ended (err e) r w = (err e, w)
check_ended (ok v) r w =
    (if is_terminal v.run.status then ok tt else err (run_cancellation_failed r v.run.status), w)

abbrev pub wait_viewed : (World → World × Bool) → ℕ → RunHandle → Result RunView → Call (Unit {0})
wait_viewed waits now h (err e) w = (err e, w)
wait_viewed waits now h (ok v) w =
    if is_terminal v.run.status
    then wait_done waits h.run_id w
    else and_then (λ _ w'. check_ended (get_run h.thread_id h.run_id none w'.db).0 h.run_id w')
        (and_then (λ _. wait_done waits h.run_id) (begin_cancel now h.run_id h w))

unfoldable pub cancel_and_wait : (World → World × Bool) → ℕ → RunHandle → Call (Unit {0})
unfolding begin_cancel
cancel_and_wait waits now h w = wait_viewed waits now h (get_run h.thread_id h.run_id none w.db).0 w

-- What a call leaves of the task that the thread has: the identifier of a task that was replaced.
abbrev pub clear_thread : (World → World × Bool) → ℕ → Option RunHandle → Call (Option ℕ)
clear_thread waits now none w = (ok none, w)
clear_thread waits now (some h) w =
    and_then (λ _ w'. (ok (some h.run_id), w')) (cancel_and_wait waits now h w)
