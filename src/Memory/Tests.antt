-- ===== src/Memory/Tests.antt =====
-- The two workers on concrete tables.
use globuy.Prelude.{◌+◌, ℕ, ◌≡◌, refl, true, false, Option, none, some, List, [], ◌∷◌, is_some}
use globuy.Sessions.Schema.{Db, Text, Run, Message, Consolidation, succeeded, user}
use globuy.Sessions.Rows.{consolidation_row, update_consolidations}
use globuy.Memory.Consolidation.{WorkerConfig, Claim, claim, complete, fail, is_of, hold, next_due}
use globuy.Memory.Late.{late_worker_changes_nothing}
use globuy.Memory.Window.{window, run_once, Between, completed}
use globuy.Memory.Taken.{Takes, window-Takes, consolidated, round_completes}
use globuy.Memory.Outbox.{
  OutboxEvent, memory, added, Tables, OutboxConfig, publish_event, event_row, entry_row,
  embedding_row, is_deleted, close_event,
}
use globuy.Memory.Projection.{wanted, published_once}

abbrev pub config : WorkerConfig
config = record { lease = 1000; run_threshold = 2 }

abbrev row : ℕ → Consolidation
row t = record {
  thread_id = t;
  user_id = 1;
  processed_through_ordinal = 0;
  pending_successful_runs = 1;
  due_at = some 100;
  claimed_at = none;
  claim_token = none;
  attempts = 0;
  last_error_code = none;
  dead_lettered_at = none;
  updated_at = 0;
}

abbrev run_7 : Run
run_7 = record {
  run_id = 7;
  thread_id = 10;
  status = succeeded;
  query = [];
  attempt = 1;
  created_at = 0;
  started_at = none;
  finished_at = none;
  error_code = none;
  error_message = none;
}

abbrev message : ℕ → Message
message n = record {
  message_id = n;
  thread_id = 10;
  run_id = 7;
  role = user;
  content = [];
  is_partial = false;
  ordinal = n;
  created_at = 0;
}

-- Two threads with work.
abbrev pub waiting : Db
waiting = record {
  users = 1 ∷ [];
  threads = [];
  runs = run_7 ∷ [];
  results = [];
  messages = message 2 ∷ message 1 ∷ [];
  consolidations = row 10 ∷ row 11 ∷ [];
  keys = [];
}

abbrev claim_of : ℕ → ℕ → Claim
claim_of token t = record { token = token; thread_id = t; user_id = 1; cursor = 0 }

abbrev first_held : Db
first_held = update_consolidations (is_of 10) (hold 200 900) waiting

abbrev both_held : Db
both_held = update_consolidations (is_of 11) (hold 300 901) first_held

-- Behind the lease of the first claim, another worker takes thread 10.
abbrev held_again : Db
held_again = update_consolidations (is_of 10) (hold 1300 902) first_held

first_claim : claim config 200 900 waiting ≡ (some (claim_of 900 10), first_held)
unfolding claim next_due
first_claim = refl

second_claim : claim config 300 901 first_held ≡ (some (claim_of 901 11), both_held)
unfolding claim next_due
second_claim = refl

late_claim : claim config 1300 902 first_held ≡ (some (claim_of 902 10), held_again)
unfolding claim next_due
late_claim = refl

late_worker_changes_nothing_example :
    (complete 900 10 2 1 1400 held_again ≡ held_again)
    × (fail 900 10 1400 [] held_again ≡ held_again)
late_worker_changes_nothing_example =
    late_worker_changes_nothing config 900 1300 902 first_held refl late_claim 2 1 1400 []

held_row_10 : consolidation_row 10 first_held ≡ some (hold 200 900 (row 10))
unfolding consolidation_row
held_row_10 = refl

waiting-row_10 : consolidation_row 10 waiting ≡ some (row 10)
unfolding consolidation_row
waiting-row_10 = refl

window-Takes_example : Takes 2 10 0 waiting (window config 10 0 waiting)
window-Takes_example = window-Takes config 10 0 waiting

-- Another run of thread 10 succeeds while the manager works.
abbrev busy : Between
busy = record {
  behind_claim = λ db. db;
  during_manager =
      update_consolidations (is_of 10)
        (λ c. record c { pending_successful_runs = c.pending_successful_runs + 1 });
}

abbrev row_later : Consolidation
row_later = record (hold 200 900 (row 10)) {
  pending_successful_runs = (row 10).pending_successful_runs + 1;
}

busy_row_10 : consolidation_row 10 (busy.during_manager first_held) ≡ some row_later
unfolding consolidation_row
busy_row_10 = refl

round_completes_example :
    let (result, after) = run_once config 900 200 busy none 500 waiting in
    (result ≡ completed)
    × (consolidation_row 10 after
        ≡ some (consolidated 0 (window config 10 0 first_held).messages 500 row_later))
round_completes_example =
    round_completes config 900 200 500 busy waiting first_claim row_later busy_row_10 refl

-- An event of the outbox, held under token 5.
abbrev event : OutboxEvent
event = record {
  event_id = 1;
  aggregate_type = memory;
  aggregate_id = 20;
  event_type = added;
  created_at = 0;
  published_at = none;
  attempts = 0;
  last_error_code = none;
  available_at = none;
  claimed_at = some 3;
  claim_token = some 5;
  dead_lettered_at = none;
}

abbrev tables : Tables
tables = record {
  events = event ∷ [];
  entries = record { memory_id = 20; memory = 104 ∷ [] } ∷ [];
  embeddings = [];
}

abbrev encoder : Text → Option (List ℕ)
encoder t = some t

abbrev hash : Text → ℕ
hash [] = 0
hash (c ∷ cs) = c

abbrev projected : Tables
projected = record {
  events = close_event 9 event ∷ [];
  entries = record { memory_id = 20; memory = 104 ∷ [] } ∷ [];
  embeddings =
      record {
        memory_id = 20;
        embedding = 104 ∷ [];
        metadata = 0;
        content_hash = 104;
        embedded_at = 9;
      }
      ∷ [];
}

publish_runs : publish_event encoder 0 hash 1 5 9 tables ≡ some projected
unfolding publish_event event_row entry_row
publish_runs = refl

event_held : event_row 1 tables ≡ some event
unfolding event_row
event_held = refl

published_once_example :
    (embedding_row 20 projected ≡ wanted encoder 0 hash (is_deleted added) (entry_row 20 tables) 9)
    × (event_row 1 projected ≡ some (close_event 9 event))
    × ((token' now' : ℕ) → publish_event encoder 0 hash 1 token' now' projected ≡ some projected)
published_once_example =
    published_once encoder 0 hash 1 5 9 event tables event_held refl refl publish_runs

encoder_returns : (t : Text) → is_some (encoder t) ≡ true
encoder_returns t = refl

abbrev outbox : OutboxConfig
outbox = record { lease = 1000; max_attempts = 8; batch_size = 100 }
