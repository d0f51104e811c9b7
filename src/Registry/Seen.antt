-- ===== src/Registry/Seen.antt =====
-- What run_status shows of a run that has ended.
use globuy.Prelude.{ℕ, ◌≡◌, refl, sym, ◌∙◌, ap, subst, Option, none, some, List}
use globuy.Sessions.Action.{Result, ok, err}
use globuy.Sessions.Runs.{StoreConfig, RunView, get_run}
use globuy.Sessions.Rows.{run_row}
use globuy.Sessions.Artifacts.{Artifact, list_artifacts}
use globuy.Broker.Table.{cursor_info, cursor_of, find_stream}
use globuy.Broker.Stream.{RunEventStream}
use globuy.Registry.Task.{World, Task, Script, execute}
use globuy.Registry.Streams.{HasOpen, type_of, ending_of, last_event}
use globuy.Registry.Rows.{HasLive, row_status}
use globuy.Registry.Ready.{get_run-row}
use globuy.Registry.Phases.{LeavesOpen}
use globuy.Registry.Ends.{delta_count, ending, shows, closes_at, closes_late}
use globuy.Registry.Lifecycle.{every_run_ends}
use globuy.Registry.View.{RunStatusView, run_status, view_run, view_files}

-- A view agrees with the run's row and with the end of its stream.
abbrev Agrees : ℕ → ℕ → World → Result RunStatusView → Type 0
Agrees t r w (err e) = Unit {0}
Agrees t r w (ok v) = shows t r w ≡ (some v.status, type_of v.cursor.terminal_event)

ending_of-cursor : (o : Option RunEventStream) → ending_of o ≡ type_of (cursor_of o).terminal_event
ending_of-cursor none = refl
ending_of-cursor (some s) = refl

files-Agrees :
    (enrich : Option (List ℕ) → Option (List ℕ)) (t r : ℕ) (w : World) (v : RunView)
    (files : Result (List Artifact))
    → run_row t r w.db ≡ some v.run
    → Agrees t r w (view_files enrich v (cursor_info t r w.broker) files)
unfolding cursor_info row_status last_event
files-Agrees enrich t r w v (err e) found = tt
files-Agrees enrich t r w v (ok files) found =
    rw (found, ending_of-cursor (find_stream t r w.broker)) refl

run-Agrees :
    (enrich : Option (List ℕ) → Option (List ℕ)) (t r : ℕ) (w : World) (files : List Artifact)
    (got : Result RunView)
    → (get_run t r none w.db).0 ≡ got
    → Agrees t r w (view_run enrich t r w files got)
run-Agrees enrich t r w files (err e) seen = tt
run-Agrees enrich t r w files (ok v) seen =
    files-Agrees enrich t r w v (list_artifacts t r w.db files) (get_run-row t r w.db v seen)

-- After a run that started in sound tables, live, with an open stream and an unused identifier for
-- its answer, has been executed by a script that does not interrupt the `except` block, while the other tasks leave the run to its task as
-- Registry.Lifecycle.every_run_ends asks them to, with no mark of a cancellation behind the move that
-- closes the row: a client that run_status answers is shown the status and the last event that the
-- script leads to, as that theorem has them.
pub ended_run_is_seen :
    (cfg : StoreConfig) (enrich : Option (List ℕ) → Option (List ℕ)) (t r message_id : ℕ)
    (s : Script) (k : Task) (files : List Artifact) (view : RunStatusView)
    → HasLive t r message_id k.world.db
    → HasOpen t r k.world.broker
    → s.late_stop ≡ none
    → LeavesOpen t r message_id (closes_at (delta_count s)) s.turns
    → LeavesOpen t r message_id (closes_late (delta_count s) s.stop) s.late_turns
    → run_status enrich t r (execute cfg t r message_id s k).world files ≡ ok view
    → let (status, event) = ending (delta_count s) s.stop in
      (view.status ≡ status) × (type_of view.cursor.terminal_event ≡ some event)
unfolding run_status
ended_run_is_seen cfg enrich t r message_id s k files view l o uncut a late answered =
    let w : World = (execute cfg t r message_id s k).world in
    let over = (every_run_ends cfg t r message_id s k l o uncut a late).0 in
    let agrees : Agrees t r w (ok view) =
      subst (Agrees t r w) answered
        (run-Agrees enrich t r w files (get_run t r none w.db).0 refl) in
    let same = sym agrees ∙ over in
    let statuses : some view.status ≡ some (ending (delta_count s) s.stop).0 = ap (λ q. q.0) same in
    (cc, ap (λ q. q.1) same)
