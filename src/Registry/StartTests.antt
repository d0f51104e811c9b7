-- ===== src/Registry/StartTests.antt =====
-- start_run in place of a task that is at work, on concrete data.
use globuy.Prelude.{Bool, true, false, none, some, [], ◌∷◌}
use globuy.Sessions.Schema.{starting, cancelled}
use globuy.Sessions.Runs.{Outcome, finish_run}
use globuy.Registry.Task.{World, RunHandle, Script, by_error}
use globuy.Registry.Starts.{StartRun, start_run}
use globuy.Registry.Tests.{blank, config, tables, task, broker, late_cancel}

-- Run 7 of thread 10 is at work, and run 8 is started in its place.
abbrev asks : StartRun
asks = record {
  query = 105 ∷ [];
  thread_id = 10;
  user_id = 1;
  client_request_id = 102;
  run_id = 8;
  message_id = 60;
  created_at = 7;
  now = 7200;
}

abbrev next_handle : RunHandle
next_handle = record {
  thread_id = 10;
  run_id = 8;
  user_id = 1;
  query = 105 ∷ [];
  status = starting;
  cancel_requested = false;
}

abbrev stopped : Outcome
stopped = record {
  status = cancelled;
  final_text = [];
  result = none;
  message_id = 51;
  is_partial = false;
  error_code = none;
  error_message = none;
}

-- While start_run waits, the task of run 7 closes its row and leaves.
abbrev cleared_world : World
cleared_world = record {
  db = (finish_run config 10 7 stopped 7100 tables).1;
  broker = broker;
  active = [];
}

abbrev ends_meanwhile : World → World × Bool
ends_meanwhile w = (cleared_world, true)

abbrev started_world : World
started_world = (start_run false ends_meanwhile blank asks task.world).1

abbrev failing : Script
failing = record late_cancel { stop = some (2, by_error); message = 33 ∷ [] }
