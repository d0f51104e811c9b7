-- ===== src/Sessions/Finish.antt =====
-- finish_run on a run that has not ended, and a second finish_run directly behind it.
use globuy.Prelude.{
  ℕ, ◌+◌, ◌≤◌, ◌<◌, ◌≡◌, refl, Bool, true, false, ◌&&◌, Option, none, some, List, [], ◌∷◌, ◌==◌,
  find_first, any, count_if, update_where, inl, inr, Option-cases, arith, find_first-some,
  find_first_counts, find_first-update, any-update, any_of_count, any-find_first, find_first-any,
  ◌∙◌, count_if-any_zero, count_if-disjoint, count_if_mono,
}
use globuy.Sessions.Schema.{
  Db, Text, Thread, Run, RunStatus, RunResult, Message, Consolidation, is_live, is_terminal,
}
use globuy.Sessions.Action.{Result, ok, err, settle, run}
use globuy.Sessions.Rows.{
  is_thread, is_run, is_message_at, run_row, consolidation_row, next_ordinal, max_ordinal,
  user_exists, insert_result, insert_message, insert_consolidation, is_live_run_of,
}
use globuy.Sessions.Runs.{
  finish_run, write_outcome, add_answer, consolidate_later, StoreConfig, Outcome, close_run,
  answer_row,
}
use globuy.Sessions.Total.{Succeeds, Ensures, Ensures-modify, Ensures-gets, Ensures-then}
use globuy.Sessions.Sound.{
  IsSound, is_active_thread, has_run_id, is_terminal_run, is_result_of, lacks_owner,
}

next_ordinal_above :
    (t n : ℕ) (ms : List Message) → max_ordinal t ms < n → any (is_message_at t n) ms ≡ false
unfolding max_ordinal
next_ordinal_above t n [] h = refl
next_ordinal_above t n (m ∷ ms) h = ground (arith, next_ordinal_above t n ms)

-- No message of a thread has the next ordinal of the thread.
next_ordinal_free :
    (t : ℕ) (db : Db) → any (is_message_at t (next_ordinal t db)) db.messages ≡ false
unfolding next_ordinal
next_ordinal_free t db =
    next_ordinal_above t (max_ordinal t db.messages + 1) db.messages (omega arith)

insert_message_fits :
    (x : Message) (db : Db)
    → any (λ y. y.message_id == x.message_id) db.messages ≡ false
    → any (is_message_at x.thread_id x.ordinal) db.messages ≡ false
    → any (has_run_id x.run_id) db.runs ≡ true
    → any (is_thread x.thread_id) db.threads ≡ true
    → insert_message x db ≡ (ok tt, record db { messages = x ∷ db.messages })
unfolding insert_message run
insert_message_fits x db fresh free held owner = ground arith

-- A thread of the tables has an owner.
owner_exists :
    (users : List ℕ) (t : ℕ) (xs : List Thread) (x : Thread)
    → count_if (lacks_owner users) xs ≡ 0
    → find_first (is_thread t) xs ≡ some x
    → any (λ u. u == x.user_id) users ≡ true
owner_exists users t [] x h e = cc
owner_exists users t (y ∷ xs) x h e = ground (arith, owner_exists users t xs x)

module _ (t r : ℕ) (x : Run) (db : Db) (s : IsSound db) (found : run_row t r db ≡ some x)
    (alive : is_live x.status ≡ true) where
  run_hit : 1 ≤ count_if (has_run_id r) db.runs
  unfolding run_row
  run_hit =
      find_first_counts (is_run t r) (has_run_id r) db.runs x found
        (ground (arith, find_first-some (is_run t r) db.runs x found))

  -- A run that has not ended has no result yet.
  no_result : any (is_result_of r) db.results ≡ false
  unfolding run_row is_live is_terminal
  no_result = count_if-any_zero (is_result_of r) db.results (
      omega (
        arith,
        s.results_terminal r,
        s.run_key r,
        find_first_counts (is_run t r) (λ y. has_run_id r y && is_live y.status) db.runs x found
            (ground (arith, find_first-some (is_run t r) db.runs x found)),
        count_if-disjoint (has_run_id r) (λ y. has_run_id r y && is_live y.status)
            (is_terminal_run r) db.runs (λ y h. ground arith) (λ y h. ground arith),
      ))

  thread_hit : 1 ≤ count_if (is_thread t) db.threads
  unfolding run_row
  thread_hit = omega (
    arith,
    s.live_in_active t,
    find_first_counts (is_run t r) (is_live_run_of t) db.runs x found
        (ground (arith, find_first-some (is_run t r) db.runs x found)),
    count_if_mono (is_active_thread t) (is_thread t) db.threads (λ y h. ground arith),
  )

  module _ (cfg : StoreConfig) (o : Outcome) (now : ℕ)
      (fresh : any (λ y. y.message_id == o.message_id) db.messages ≡ false) where
    abbrev closed : Run → Run
    closed = close_run o.status o.error_code o.error_message now

    known_run : any (has_run_id r) (update_where (is_run t r) closed db.runs) ≡ true
    known_run =
        any-update (has_run_id r) (is_run t r) closed db.runs (λ y. refl)
        ∙ any_of_count (has_run_id r) db.runs run_hit

    -- What each part of the outcome leaves for the next.
    abbrev ClosedRuns : Db → Type 0
    ClosedRuns mid = mid.runs ≡ update_where (is_run t r) closed db.runs

    abbrev SameThreads : Db → Type 0
    SameThreads mid = ClosedRuns mid × (mid.threads ≡ db.threads) × (mid.users ≡ db.users)

    abbrev SameMessages : Db → Type 0
    SameMessages mid = SameThreads mid × (mid.messages ≡ db.messages)

    abbrev SameResults : Db → Type 0
    SameResults mid = SameMessages mid × (mid.results ≡ db.results)

    insert_result_total :
        (x : RunResult) → x.run_id ≡ r → Ensures SameResults (insert_result x) SameMessages
    unfolding insert_result run
    insert_result_total x e = record {
      at = λ mid h. rw (h.1, h.0.0.0, e) (ground (arith, no_result, known_run));
    }

    answer_total :
        (content : Option Text) → Ensures SameMessages (add_answer t r o now content) SameThreads
    unfolding add_answer run
    answer_total none = record { at = λ mid h. h.0 }
    answer_total (some content) = record {
      at = λ mid h.
          rw
            (insert_message_fits (answer_row t r o now content (next_ordinal t mid)) mid
              (rw h.1 fresh) (next_ordinal_free t mid) (rw h.0.0 known_run)
              (rw h.0.1 (any_of_count (is_thread t) db.threads thread_hit)))
            h.0;
    }

    consolidate_total :
        (won : Bool) (c : Option Consolidation)
        → Ensures
            (λ mid. SameThreads mid × (consolidation_row t mid ≡ c))
            (consolidate_later cfg t won now c)
            ClosedRuns
    unfolding consolidate_later run insert_consolidation consolidation_row user_exists
    consolidate_total true none = record {
      at = λ mid h. elim (Option-cases (find_first (is_thread t) db.threads)) [
        | inl missing ↦ absurd (
            any-find_first (is_thread t) db.threads missing
              (any_of_count (is_thread t) db.threads thread_hit))
        | inr (y, held) ↦
            rw (h.0.1, h.0.2)
              (ground (
                arith,
                h.0.0,
                find_first-any (λ z. z.thread_id == t) mid.consolidations h.1,
                any_of_count (is_thread t) db.threads thread_hit,
                owner_exists db.users t db.threads y s.owned,
              ))
      ];
    }
    consolidate_total true (some c) = record { at = λ mid h. h.0.0 }
    consolidate_total false none = record { at = λ mid h. h.0.0 }
    consolidate_total false (some c) = record { at = λ mid h. h.0.0 }

    write_outcome_total : Succeeds ClosedRuns (write_outcome cfg t r o now db)
    unfolding write_outcome
    write_outcome_total =
        let whole : Ensures (λ d. d ≡ db) (write_outcome cfg t r o now) ClosedRuns =
          Ensures-then SameResults _ _
            (Ensures-modify _ λ d e. rw e (((refl, refl, refl), refl), refl))
            (Ensures-then SameMessages _ _ (insert_result_total _ refl) (
              Ensures-then SameThreads _ _ (answer_total _) (
                Ensures-gets _ _ λ c.
                  Ensures-then ClosedRuns _ _ (consolidate_total _ c)
                    (Ensures-modify _ λ d h. h)))) in
        whole.at db refl

pass_Succeeds :
    (Q : Db → Type 0) (r : Result (Unit {0}) × Db) → Succeeds Q r → (r.0 ≡ ok tt) × Q r.1
pass_Succeeds Q (ok tt, after) h = (refl, h)
pass_Succeeds Q (err e, after) h = absurd h

settle_ok : (db : Db) (r : Result (Unit {0}) × Db) → r.0 ≡ ok tt → settle db r ≡ (ok tt, r.1)
settle_ok db (ok tt, after) h = refl
settle_ok db (err e, after) h = cc

pub finish_run_over :
    (cfg : StoreConfig) (t r : ℕ) (x : Run) (o : Outcome) (now : ℕ) (db : Db)
    → run_row t r db ≡ some x
    → is_terminal x.status ≡ true
    → finish_run cfg t r o now db ≡ (ok tt, db)
unfolding finish_run run
finish_run_over cfg t r x o now db found over = ground arith

pub finish_run_open :
    (cfg : StoreConfig) (t r : ℕ) (x : Run) (o : Outcome) (now : ℕ) (db : Db)
    → run_row t r db ≡ some x
    → is_terminal x.status ≡ false
    → finish_run cfg t r o now db ≡ settle db (write_outcome cfg t r o now db)
unfolding finish_run run
finish_run_open cfg t r x o now db found over = ground arith

pub live_not_terminal : (status : RunStatus) → is_live status ≡ true → is_terminal status ≡ false
unfolding is_live is_terminal
live_not_terminal status h = ground arith

-- Of a run that has not ended, in sound tables, with an unused message id and a terminal status:
-- finish_run succeeds, and the run has the status, the error code and the error message of the
-- outcome and the time as its finish time; a finish_run of the same run directly behind it, with
-- whatever outcome and time, succeeds and changes nothing.
pub first_outcome_wins :
    (cfg : StoreConfig) (t r : ℕ) (x : Run) (o : Outcome) (now : ℕ) (db : Db)
    → IsSound db
    → run_row t r db ≡ some x
    → is_live x.status ≡ true
    → is_terminal o.status ≡ true
    → any (λ y. y.message_id == o.message_id) db.messages ≡ false
    → (later : Outcome) (now' : ℕ)
    → let (got, after) = finish_run cfg t r o now db in
      (got ≡ ok tt)
      × (run_row t r after
          ≡ some (record x {
            status = o.status;
            finished_at = some now;
            error_code = o.error_code;
            error_message = o.error_message;
          }))
      × (finish_run cfg t r later now' after ≡ (ok tt, after))
first_outcome_wins cfg t r x o now db s found alive ends fresh later now' =
    let f : Run → Run = close_run o.status o.error_code o.error_message now in
    let after : Db = (write_outcome cfg t r o now db).1 in
    let wrote = pass_Succeeds _ _ (write_outcome_total t r x db s found alive cfg o now fresh) in
    let finished : finish_run cfg t r o now db ≡ (ok tt, after) =
      finish_run_open cfg t r x o now db found (live_not_terminal x.status alive)
      ∙ settle_ok db (write_outcome cfg t r o now db) wrote.0 in
    let row : run_row t r after ≡ some (f x) =
      unfold run_row in
      rw (wrote.1) (find_first-update (is_run t r) f db.runs x (λ y h. h) found) in
    rw finished (refl, row, finish_run_over cfg t r (f x) later now' after row ends)
