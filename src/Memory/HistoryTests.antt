-- ===== src/Memory/HistoryTests.antt =====
-- Tests of the daily cleanup of the memory history.
use globuy.Prelude.{
  ℕ, ◌≡◌, refl, true, false, none, some, List, [], ◌∷◌, arith, ◌+◌, ◌++◌, map, all, select_where,
}
use globuy.Memory.Entries.{MemoryHistory, adds}
use globuy.Memory.History.{WorkerState, Round, one_day, serve_rounds}
use globuy.Memory.Retention.{is_within, all_added, history_retention}
use globuy.Memory.Tests.{config, waiting}

abbrev entry_at : ℕ → MemoryHistory
entry_at now = record {
  memory_id = 20;
  user_id = 1;
  event = adds;
  memory_version = 1;
  old_memory = none;
  new_memory = some [];
  source_thread_id = none;
  source_run_id = none;
  created_at = now;
}

abbrev round_at : ℕ → List MemoryHistory → Round
round_at now rows = record {
  meanwhile = λ db. db;
  added = rows;
  now = now;
  cleaned_at = now + 1;
  cleanup_raises = false;
  token = 500;
  claimed_at = now;
  others = record { behind_claim = λ db. db; during_manager = λ db. db };
  error = none;
  later = now;
}

abbrev worker : WorkerState
worker = record { last_cleanup_at = none; history = entry_at 5 ∷ entry_at 90 ∷ []; db = waiting }

-- The retention is 50; the second round comes on the same day, the third one a day behind the first.
abbrev daily : List Round
daily =
    round_at 200 (entry_at 150 ∷ []) ∷ round_at (100 + one_day) (entry_at (99 + one_day) ∷ []) ∷ []

kept_times :
    map MemoryHistory.created_at
      (serve_rounds config 50 (round_at 100 (entry_at 95 ∷ []) ∷ daily) worker).history
    ≡ (99 + one_day) ∷ []
unfolding serve_rounds
kept_times = refl

history_retention_example :
    let after = serve_rounds config 50 (round_at 100 (entry_at 95 ∷ []) ∷ daily) worker in
    (all (is_within (50 + one_day) (100 + one_day)) after.history ≡ true)
    × (select_where (is_within 50 (101 + one_day)) after.history
        ≡ select_where
            (is_within 50 (101 + one_day))
            (worker.history ++ all_added (round_at 100 (entry_at 95 ∷ []) ∷ daily)))
history_retention_example =
    history_retention 50 config (101 + one_day) 95 (round_at 100 (entry_at 95 ∷ [])) daily worker
      refl
      (
        omega arith,
        omega arith,
        omega arith,
        refl,
        (
          omega arith,
          omega arith,
          omega arith,
          refl,
          (omega arith, omega arith, omega arith, refl, tt),
        ),
      )
      refl
