-- ===== src/Sessions/SoundRuns.antt =====
-- create_run, finish_run and set_run_status keep the invariant of the tables.
use globuy.Sessions.SoundThreads.{insert_key-IsSound, touch-IsSound}
use globuy.Prelude.{
  ℕ, ◌≤◌, ◌≡◌, refl, Bool, true, false, ◌&&◌, not, Option, none, some, ◌∷◌, ◌==◌, any, count_if,
  arith, find_first-none, find_first-some, find_first_counts, ◌∙◌, count_if-update_hits,
}
use Prim.Native.String.{String}
use globuy.Sessions.Schema.{
  Db, Text, Thread, Run, RunStatus, RunResult, Message, Consolidation, Response, is_live,
  is_terminal, is_active,
}
use globuy.Sessions.Action.{modify, run}
use globuy.Sessions.Rows.{
  is_thread, is_live_run_of, is_run, insert_run, insert_message, insert_result,
  insert_consolidation, update_runs, live_run, run_row, thread_row, update_consolidations,
}
use globuy.Sessions.Runs.{
  create_run, admit_run, write_run, refuse_running, set_run_status, finish_run, write_outcome,
  add_answer, consolidate_later, StoreConfig, Outcome, fresh_run, point_at, close_run, mark,
  schedule, credit,
}
use globuy.Sessions.Hoare.{
  Yields, Yields-modify, Yields-pure, Yields-raise, Yields-raise_if, Yields-if, Yields-gets,
  Yields-or_raise, Yields-then, Yields-weaken, Yields-unless_stored, transaction_keeps,
}
use globuy.Sessions.Sound.{
  IsSound, IsIdle, is_active_thread, is_terminal_run, add_run-IsSound, add_message-IsSound,
  add_result-IsSound, other_tables-IsSound,
}
use globuy.Sessions.SoundWrites.{update_runs-IsSound, move_runs-IsSound}

-- A new run.
insert_run-IsSound :
    (x : Run) → Yields (λ db. IsSound db × IsIdle x.thread_id db) (insert_run x) IsSound
unfolding insert_run run
insert_run-IsSound x = record { at = λ db h. ground (arith, add_run-IsSound x db) }

insert_message-IsSound : (x : Message) → Yields IsSound (insert_message x) IsSound
unfolding insert_message run
insert_message-IsSound x = record { at = λ db h. ground (arith, add_message-IsSound x db) }

write_run-IsSound :
    (is_space : ℕ → Bool) (u t r : ℕ) (query : Text) (request message_id now : ℕ)
    (response : Response)
    → Yields
        (λ db. IsSound db × IsIdle t db)
        (write_run is_space u t r query request message_id now response)
        IsSound
unfolding write_run
write_run-IsSound is_space u t r query request message_id now response = Yields-gets _ _ λ o.
    Yields-then IsSound _ _
      (Yields-weaken _ _ (λ db h. h.0) (insert_run-IsSound (fresh_run r t query now)))
      (Yields-then IsSound _ _ (insert_message-IsSound _) (
        Yields-then IsSound _ _
          (touch-IsSound _ (point_at is_space r query now) (λ x. (refl, refl, refl, refl)))
          (Yields-then IsSound _ _ (insert_key-IsSound _) (Yields-pure _ λ db h. h))))

open-IsIdle :
    (u t : ℕ) (x : Thread) (db : Db)
    → thread_row t u db ≡ some x
    → not (is_active x.status) ≡ false
    → live_run t db ≡ none
    → IsIdle t db
unfolding thread_row live_run
open-IsIdle u t x db found is_free quiet = record {
  no_live = find_first-none (is_live_run_of t) db.runs quiet;
  is_open =
      find_first_counts (λ y. is_thread t y && y.user_id == u) (is_active_thread t) db.threads x
        found
        (ground (arith, find_first-some (λ y. is_thread t y && y.user_id == u) db.threads x found));
}

refuse_running-IsIdle :
    (u t : ℕ) (x : Thread) (busy : Option Run)
    → not (is_active x.status) ≡ false
    → Yields
        (λ db. (IsSound db × (thread_row t u db ≡ some x)) × (live_run t db ≡ busy))
        (refuse_running busy)
        (λ db. IsSound db × IsIdle t db)
refuse_running-IsIdle u t x none is_free =
    Yields-pure _ (λ db h. (h.0.0, open-IsIdle u t x db h.0.1 is_free h.1))
refuse_running-IsIdle u t x (some r) is_free = Yields-raise _

-- The guards of a new run pass on an idle active thread only.
admit_run-IsIdle : (u t : ℕ) → Yields IsSound (admit_run u t) (λ db. IsSound db × IsIdle t db)
unfolding admit_run
admit_run-IsIdle u t = Yields-gets _ _ λ found. Yields-or_raise _ _ _ λ x e.
    Yields-raise_if _ _ _ λ is_free. Yields-gets _ _ λ busy.
      Yields-weaken _ _ (λ db h. ((h.0.0, h.0.1 ∙ e), h.1))
        (refuse_running-IsIdle u t x busy is_free)

pub create_run-IsSound :
    (is_space : ℕ → Bool) (u t r : ℕ) (query : Text) (request message_id created : ℕ)
    (response : Response) (db : Db)
    → IsSound db
    → IsSound (create_run is_space u t r query request message_id created response db).1
unfolding create_run
create_run-IsSound is_space u t r query request message_id created response =
    transaction_keeps IsSound _ (
      Yields-gets _ _ λ known. Yields-raise_if _ _ _ λ _. Yields-gets _ _ λ stored.
        Yields-unless_stored _ _ (λ db h. h.0.0)
          (Yields-then _ _ _ (Yields-weaken _ _ (λ db h. h.0.0) (admit_run-IsIdle u t))
            (write_run-IsSound is_space u t r query request message_id _ response)))

-- The outcome of a run.
insert_result-IsSound :
    (x : RunResult)
    → Yields
        (λ db. IsSound db × (1 ≤ count_if (is_terminal_run x.run_id) db.runs))
        (insert_result x)
        IsSound
unfolding insert_result run
insert_result-IsSound x = record { at = λ db h. ground (arith, add_result-IsSound x db) }

add_answer-IsSound :
    (t r : ℕ) (o : Outcome) (now : ℕ) (content : Option Text)
    → Yields IsSound (add_answer t r o now content) IsSound
unfolding add_answer
add_answer-IsSound t r o now none = Yields-pure _ (λ db h. h)
add_answer-IsSound t r o now (some content) =
    Yields-gets _ _ λ n. Yields-weaken _ _ (λ db h. h.0) (insert_message-IsSound _)

insert_consolidation-IsSound : (x : Consolidation) → Yields IsSound (insert_consolidation x) IsSound
unfolding insert_consolidation run
insert_consolidation-IsSound x = record {
  at = λ db h. ground (arith, other_tables-IsSound (x ∷ db.consolidations) db.keys db);
}

update_consolidations-IsSound :
    (p : Consolidation → Bool) (f : Consolidation → Consolidation)
    → Yields IsSound (modify (update_consolidations p f)) IsSound
update_consolidations-IsSound p f = Yields-modify _ (λ db h. other_tables-IsSound _ db.keys db h)

consolidate_later-IsSound :
    (cfg : StoreConfig) (t : ℕ) (won : Bool) (now : ℕ) (c : Option Consolidation)
    → Yields IsSound (consolidate_later cfg t won now c) IsSound
unfolding consolidate_later
consolidate_later-IsSound cfg t true now none = Yields-gets _ _ λ found.
    Yields-or_raise _ _ _ λ x _. Yields-weaken _ _ (λ db h. h.0) (insert_consolidation-IsSound _)
consolidate_later-IsSound cfg t true now (some c) =
    update_consolidations-IsSound (λ x. x.thread_id == t) (λ _. schedule cfg now (credit c))
consolidate_later-IsSound cfg t false now none = Yields-pure _ (λ db h. h)
consolidate_later-IsSound cfg t false now (some c) =
    update_consolidations-IsSound (λ x. x.thread_id == t) (λ _. schedule cfg now c)

close_run-IsSound :
    (t r : ℕ) (o : Outcome) (now : ℕ) (x : Run) (db : Db)
    → is_terminal o.status ≡ true
    → run_row t r db ≡ some x
    → IsSound db
    → let db' = update_runs (is_run t r) (close_run o.status o.error_code o.error_message now) db in
      IsSound db' × (1 ≤ count_if (is_terminal_run r) db'.runs)
unfolding run_row is_live is_terminal
close_run-IsSound t r o now x db ends found s =
    let f : Run → Run = close_run o.status o.error_code o.error_message now in
    (
      update_runs-IsSound (is_run t r) f db (λ y. (refl, refl)) (λ y h k. ground arith)
          (λ y h k. ends) s,
      omega (
        arith,
        find_first-some (is_run t r) db.runs x found,
        count_if-update_hits (is_terminal_run r) (is_run t r) f db.runs (λ y h. ground arith),
      ),
    )

write_outcome-IsSound :
    (cfg : StoreConfig) (t r : ℕ) (o : Outcome) (now : ℕ) (x : Run)
    → is_terminal o.status ≡ true
    → Yields (λ db. IsSound db × (run_row t r db ≡ some x)) (write_outcome cfg t r o now) IsSound
unfolding write_outcome
write_outcome-IsSound cfg t r o now x ends =
    Yields-then _ _ _ (Yields-modify _ λ db h. close_run-IsSound t r o now x db ends h.1 h.0) (
      Yields-then IsSound _ _ (insert_result-IsSound _) (
        Yields-then IsSound _ _ (add_answer-IsSound t r o now _) (
          Yields-gets _ _ λ c.
            Yields-then IsSound _ _
              (Yields-weaken _ _ (λ db h. h.0) (consolidate_later-IsSound cfg t _ now c))
              (touch-IsSound _ _ (λ y. (refl, refl, refl, refl))))))

pub finish_run-IsSound :
    (cfg : StoreConfig) (t r : ℕ) (o : Outcome) (now : ℕ) (db : Db)
    → is_terminal o.status ≡ true
    → IsSound db
    → IsSound (finish_run cfg t r o now db).1
unfolding finish_run
finish_run-IsSound cfg t r o now db ends =
    transaction_keeps IsSound _
      (Yields-gets _ _ λ found. Yields-or_raise _ _ _ λ x e.
        Yields-if _ (λ _. Yields-pure _ λ db h. h.0)
          (λ _.
            Yields-weaken _ _ (λ db h. (h.0, h.1 ∙ e))
              (write_outcome-IsSound cfg t r o now x ends)))
      db

-- A change of status is sound where the run has not ended.
pub set_run_status-IsSound :
    (t r : ℕ) (status : RunStatus) (code : Option String) (message : Option Text) (now : ℕ)
    (db : Db)
    → any (λ x. is_run t r x && is_terminal x.status) db.runs ≡ false
    → IsSound db
    → IsSound (set_run_status t r status code message now db).1
unfolding set_run_status run
set_run_status-IsSound t r status code message now db young s = ground (
  arith,
  move_runs-IsSound (is_run t r) (mark status code message now) db (λ x. (refl, refl)) young s,
)
