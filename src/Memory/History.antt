-- ===== src/Memory/History.antt =====
-- app/memory/consolidation_worker.py: `cleanup_history` and the part of `run_once` that calls it once a
-- day, over the rows of the memory history. An exception of the database is an argument.
use globuy.Prelude.{
  ℕ, ◌+◌, ◌*◌, Bool, true, Option, none, some, List, [], ◌∷◌, ◌++◌, ltb, leb, count_if,
  delete_where, if◌then◌else◌,
}
use globuy.Sessions.Schema.{Db, Text}
use globuy.Memory.Entries.{MemoryHistory}
use globuy.Memory.Consolidation.{WorkerConfig}
use globuy.Memory.Window.{RoundResult, Between, run_once}

-- timedelta(days=1), in microseconds
abbrev pub one_day : ℕ
one_day = 24 * 3600 * 1000000

-- `created_at < now - retention`
abbrev pub is_outdated : ℕ → ℕ → MemoryHistory → Bool
is_outdated retention now h = ltb (h.created_at + retention) now

-- The number of rows that are deleted, and the rows that are left.
unfoldable pub cleanup_history : ℕ → ℕ → List MemoryHistory → ℕ × List MemoryHistory
cleanup_history retention now rows =
    (count_if (is_outdated retention now) rows, delete_where (is_outdated retention now) rows)

-- The tables of the worker, and its `_last_cleanup_at`.
pub record WorkerState : Type 0 where
  pub last_cleanup_at : Option ℕ
  pub history : List MemoryHistory
  pub db : Db

abbrev pub is_cleanup_due : ℕ → Option ℕ → Bool
is_cleanup_due now none = true
is_cleanup_due now (some last) = leb (last + one_day) now

-- A cleanup that raises is not tried again on the same day.
unfoldable pub clean_up : ℕ → ℕ → ℕ → Bool → WorkerState → WorkerState
unfolding cleanup_history
clean_up retention now cleaned_at raises s =
    if is_cleanup_due now s.last_cleanup_at
    then (record s {
      last_cleanup_at = some now;
      history = (if raises then s.history else (cleanup_history retention cleaned_at s.history).1);
    })
    else s

-- What other tasks do before and in a round, with the rows that they write into the history, and the round:
-- its clock readings, its token and the exceptions of the cleanup and of the manager.
pub record Round : Type 0 where
  pub meanwhile : Db → Db
  pub added : List MemoryHistory
  pub now : ℕ
  pub cleaned_at : ℕ
  pub cleanup_raises : Bool
  pub token : ℕ
  pub claimed_at : ℕ
  pub others : Between
  pub error : Option Text
  pub later : ℕ

abbrev pub with_result : WorkerState → RoundResult × Db → RoundResult × WorkerState
with_result s (result, db) = (result, record s { db = db })

unfoldable pub work : WorkerConfig → ℕ → Round → WorkerState → RoundResult × WorkerState
unfolding clean_up run_once
work cfg retention r s =
    let cleaned = clean_up retention r.now r.cleaned_at r.cleanup_raises s in
    with_result cleaned (run_once cfg r.token r.claimed_at r.others r.error r.later cleaned.db)

abbrev pub after_others : Round → WorkerState → WorkerState
after_others r s = record s { history = s.history ++ r.added; db = r.meanwhile s.db }

-- `_main` with --serve: one round behind the other.
unfoldable pub serve_rounds : WorkerConfig → ℕ → List Round → WorkerState → WorkerState
unfolding work
serve_rounds cfg retention [] s = s
serve_rounds cfg retention (r ∷ rs) s =
    serve_rounds cfg retention rs (work cfg retention r (after_others r s)).1
