-- ===== src/Registry/Lifecycle.antt =====
-- How a run ends: its row, its stream and its handle, for a script and the turns of other tasks.
use globuy.Prelude.{
  ℕ, ◌+◌, ◌≡◌, refl, subst, Bool, true, false, ◌&&◌, Option, none, some, List, [], ◌∷◌, ◌==◌, ltb,
  leb, length, any, delete_where, inl, inr, Bool-cases, arith,
}
use globuy.Sessions.Schema.{RunStatus, succeeded, Text}
use globuy.Sessions.Runs.{StoreConfig}
use globuy.Broker.Stream.{EventType}
use globuy.Registry.Task.{
  RunHandle, Task, Turn, Stop, Script, body, stop_status, stop_event, stop_after, left_by,
  handle_stop, handler, run_turns, execute,
}
use globuy.Registry.Streams.{HasOpen}
use globuy.Registry.Rows.{HasLive}
use globuy.Registry.Phases.{
  Phase, live, closed, ended, after_all, LeavesOpen, AllFit, Holds, run_turns-Holds, Within,
}
use globuy.Registry.Ends.{
  delta_count, ending, phase_stopped, body_phase, body-AllFit, stop-AllFit, body_length, shows,
  ended-shows, handler-AllFit, handler_phase, closes_at, closes_late, stop-Within, handler-Within,
}

module _ (cfg : StoreConfig) (t r message_id : ℕ) where
  handler-shows :
      (c : ℕ) (ts : List Turn) (why : Stop) (message : Text) (p : Phase) (σ : RunStatus) (k : Task)
      → LeavesOpen t r message_id c ts
      → Within c (handler cfg t r message_id why message k) p
      → AllFit cfg t r message_id (handler cfg t r message_id why message k) p
      → after_all (handler cfg t r message_id why message k) p ≡ ended σ (stop_event why)
      → Holds cfg t r message_id p k
      → shows t r (handle_stop cfg t r message_id (some why) message none ts k).world
        ≡ (some σ, some (stop_event why))
  handler-shows c ts why message p σ k a i f e h =
      let ms = handler cfg t r message_id why message k in
      let k' : Task = (run_turns cfg t r message_id ts ms k).0 in
      let h' : Holds cfg t r message_id (ended σ (stop_event why)) k' =
        subst (λ q. Holds cfg t r message_id q k') e
          (run_turns-Holds cfg t r message_id c ts ms p k a i f h).1 in
      ended-shows cfg t r message_id σ (stop_event why) k' h'

  -- What is left when the body has stopped, and the `except` block has run, if any.
  stopped-shows :
      (stop : Option (ℕ × Stop)) (d : ℕ) (ts : List Turn) (message : Text) (k : Task)
      → LeavesOpen t r message_id (closes_late d stop) ts
      → Holds cfg t r message_id (phase_stopped d stop) k
      → shows t r
          (handle_stop cfg t r message_id (left_by false stop (d + 8)) message none ts k).world
        ≡ (some (ending d stop).0, some (ending d stop).1)
  unfolding ending
  stopped-shows none d ts message k a h = ended-shows cfg t r message_id _ _ k h
  stopped-shows (some (n, why)) d ts message k a h =
      let fit = handler-AllFit cfg t r message_id why message k in
      let leads = handler_phase cfg t r message_id why message k in
      let inside = handler-Within cfg t r message_id why message k in
      elim (Bool-cases (leb n (d + 4))) [
        | inl early ↦
            let soon : ltb n (d + 8) ≡ true = ground (arith, early) in
            let h' : Holds cfg t r message_id live k = rw early at h in
            rw (early, soon)
              (handler-shows 1 ts why message live (stop_status why) k (rw early at a) inside.0
                fit.0 leads.0 h')
        | inr late ↦ elim (Bool-cases (ltb n (d + 8))) [
          | inl soon ↦
              let h' : Holds cfg t r message_id (closed succeeded) k = rw (late, soon) at h in
              rw (late, soon)
                (handler-shows 0 ts why message (closed succeeded) succeeded k (rw late at a)
                  (inside.1 succeeded) fit.1 leads.1 h')
          | inr over ↦
              let h' : Holds cfg t r message_id (ended succeeded EventType.run_finished) k =
                rw (late, over) at h in
              rw (late, over) (ended-shows cfg t r message_id _ _ k h')
        ]
      ]

module _ (cfg : StoreConfig) (t r message_id : ℕ) where
  -- The `except` block is not interrupted.
  uncut-shows :
      (late : Option ℕ) (stop : Option (ℕ × Stop)) (d : ℕ) (ts : List Turn) (message : Text)
      (k : Task)
      → late ≡ none
      → LeavesOpen t r message_id (closes_late d stop) ts
      → Holds cfg t r message_id (phase_stopped d stop) k
      → shows t r
          (handle_stop cfg t r message_id (left_by false stop (d + 8)) message late ts k).world
        ≡ (some (ending d stop).0, some (ending d stop).1)
  uncut-shows none stop d ts message k e a h =
      stopped-shows cfg t r message_id stop d ts message k a h
  uncut-shows (some n) stop d ts message k e a h = cc

any-delete : (p : RunHandle → Bool) (hs : List RunHandle) → any p (delete_where p hs) ≡ false
any-delete p [] = refl
any-delete p (h ∷ hs) = ground (arith, any-delete p hs)

-- A run that starts in sound tables, not yet ended, with an open stream and an unused identifier for
-- its answer, executed by a script: the agent gives finitely many chunks, and the task is interrupted
-- once at most, by a cancellation or by an error, after any number of its moves, and not again in its
-- `except` block. Between the moves other tasks call the broker, let time pass, write to the tables
-- and mark the run as cancelling, as long as none publishes an event that ends the run, none marks it
-- behind the move that closes its row, and no other write spoils what the tables have of the run.
-- Then the run ends. Not interrupted, its row has succeeded and `run_finished` ends its stream.
-- Interrupted before its row is closed, the row is cancelled or failed and the event says the same.
-- Interrupted behind that, the row has succeeded, and the event says cancelled or failed all the same.
-- In any case, the run is no longer among the active tasks.
pub every_run_ends :
    (cfg : StoreConfig) (t r message_id : ℕ) (s : Script) (k : Task)
    → HasLive t r message_id k.world.db
    → HasOpen t r k.world.broker
    → s.late_stop ≡ none
    → LeavesOpen t r message_id (closes_at (delta_count s)) s.turns
    → LeavesOpen t r message_id (closes_late (delta_count s) s.stop) s.late_turns
    → let world = (execute cfg t r message_id s k).world in
      let (status, event) = ending (delta_count s) s.stop in
      (shows t r world ≡ (some status, some event))
      × (any (λ h. h.thread_id == t && h.run_id == r) world.active ≡ false)
unfolding execute
every_run_ends cfg t r message_id s k l o uncut a late =
    let moves = body cfg t r message_id s.chunks s.final_text s.result in
    let ran =
      run_turns-Holds cfg t r message_id (closes_at (delta_count s)) s.turns
        (stop_after s.stop moves) live k a (stop-Within cfg t r message_id s s.stop)
        (stop-AllFit cfg t r message_id s.stop moves (body-AllFit cfg t r message_id s)) (l, o) in
    let (k', raised) = run_turns cfg t r message_id s.turns (stop_after s.stop moves) k in
    let h : Holds cfg t r message_id (phase_stopped (delta_count s) s.stop) k' =
      subst (λ q. Holds cfg t r message_id q k') (body_phase cfg t r message_id s s.stop) ran.1 in
    (
      rw (ran.0, body_length cfg t r message_id s)
          (uncut-shows cfg t r message_id s.late_stop s.stop (delta_count s) s.late_turns s.message
            k' uncut late h),
      any-delete (λ h. h.thread_id == t && h.run_id == r)
          (handle_stop cfg t r message_id (left_by raised s.stop (length moves)) s.message
            s.late_stop s.late_turns k').world.active,
    )
