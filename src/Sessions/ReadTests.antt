-- ===== src/Sessions/ReadTests.antt =====
-- Pages and artifacts on concrete tables.
use globuy.Prelude.{ℕ, ◌≡◌, ◌≢◌, refl, true, false, none, some, [], ◌∷◌, ◌%◌, arith}
use globuy.Sessions.Schema.{Db, Thread, archived, new_thread, active, starting, iso}
use globuy.Sessions.Action.{ok, run}
use globuy.Sessions.Rows.{run_row}
use globuy.Sessions.Runs.{get_run}
use globuy.Sessions.Pages.{is_behind, precedes, archive_time, same_millisecond_is_skipped}
use globuy.Sessions.Artifacts.{Artifact, FilePath, register_artifact}

abbrev shelved : ℕ → ℕ → Thread
shelved t at = record {
  thread_id = t;
  user_id = 1;
  title = [];
  status = archived;
  active_slot = none;
  created_at = 0;
  updated_at = at;
  archived_at = some at;
  archive_reason = some new_thread;
  last_run_id = none;
}

inside : 5300 % 1000 ≢ 0
inside h = omega (arith, h)

same_ms : iso 5500 ≡ iso 5300
unfolding iso
same_ms = refl

same_millisecond_is_skipped_example :
    (precedes archive_time (shelved 2 5500) (shelved 1 5300) ≡ true)
    × (is_behind (iso 5500) 2 (shelved 1 5300) ≡ false)
same_millisecond_is_skipped_example =
    same_millisecond_is_skipped (shelved 2 5500) (shelved 1 5300) 5500 5300 refl refl (omega arith)
      same_ms inside

-- A thread with one run.
abbrev tables : Db
tables = record {
  users = 1 ∷ [];
  threads = record (shelved 1 0) { status = active; archived_at = none } ∷ [];
  runs =
      record {
        run_id = 7;
        thread_id = 1;
        status = starting;
        query = [];
        attempt = 1;
        created_at = 0;
        started_at = none;
        finished_at = none;
        error_code = none;
        error_message = none;
      }
      ∷ [];
  results = [];
  messages = [];
  consolidations = [];
  keys = [];
}

abbrev path : FilePath
path = record { is_absolute = false; has_parent_part = false; text = 97 ∷ [] }

abbrev file : Artifact
file = record {
  file_id = 3;
  thread_id = 1;
  run_id = 7;
  filename = [];
  kind = [];
  media_type = [];
  size = 9;
  relative_path = 97 ∷ [];
  created_at = 8;
}

registers : register_artifact 1 7 [] [] [] 9 path 3 8 tables [] ≡ (ok file, file ∷ [])
unfolding register_artifact get_run run_row run
registers = refl
