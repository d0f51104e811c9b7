-- ===== src/Memory/Window.antt =====
-- app/memory/consolidation_worker.py: `_window`, the messages that one round consolidates, and
-- `run_once`, the round. What the memory manager makes of the messages is an argument.
use globuy.Prelude.{
  ℕ, Bool, true, false, ◌&&◌, Option, none, some, List, [], ◌∷◌, ◌++◌, ◌==◌, ltb, leb, any,
  select_where, length, take, if◌then◌else◌,
}
use globuy.Sessions.Schema.{Db, Text, Message}
use globuy.Sessions.Runs.{is_succeeded}
use globuy.Memory.Consolidation.{WorkerConfig, Claim, claim, complete, fail}

-- A message of the thread behind the cursor, of a run that succeeded.
abbrev pub is_open_row : ℕ → ℕ → Db → Message → Bool
is_open_row t cursor db m =
    m.thread_id == t
    && ltb cursor m.ordinal
    && any (λ r. r.run_id == m.run_id && is_succeeded r.status) db.runs

-- ORDER BY ordinal
abbrev pub insert_message_row : Message → List Message → List Message
insert_message_row m [] = m ∷ []
insert_message_row m (n ∷ ns) =
    if leb m.ordinal n.ordinal then m ∷ n ∷ ns else n ∷ insert_message_row m ns

unfoldable pub by_ordinal : List Message → List Message
by_ordinal [] = []
by_ordinal (m ∷ ms) = insert_message_row m (by_ordinal ms)

abbrev pub member : ℕ → List ℕ → Bool
member r rs = any (λ x. x == r) rs

-- The first `n` runs of the rows.
unfoldable pub pick_runs : ℕ → List ℕ → List Message → List ℕ
pick_runs n chosen [] = chosen
pick_runs n chosen (m ∷ ms) = elim (member m.run_id chosen) [
  | true ↦ pick_runs n chosen ms
  | false ↦ elim (leb n (length chosen)) [
    | true ↦ chosen
    | false ↦ pick_runs n (chosen ++ m.run_id ∷ []) ms
  ]
]

abbrev pub backwards : List Message → List Message
backwards [] = []
backwards (m ∷ ms) = backwards ms ++ m ∷ []

-- The four messages before the first one.
unfoldable pub context_rows : ℕ → ℕ → Db → List Message
unfolding by_ordinal
context_rows t first db = backwards (
    take 4 (
      backwards
        (by_ordinal (select_where (λ m. m.thread_id == t && ltb m.ordinal first) db.messages))))

abbrev pub last_ordinal : ℕ → List Message → ℕ
last_ordinal n [] = n
last_ordinal n (m ∷ ms) = last_ordinal m.ordinal ms

abbrev pub last_run : Option ℕ → List ℕ → Option ℕ
last_run r [] = r
last_run r (x ∷ xs) = last_run (some x) xs

pub record Window : Type 0 where
  pub context : List Message
  pub messages : List Message
  pub run_id : Option ℕ
  pub snapshot_ordinal : ℕ
  pub run_count : ℕ

abbrev pub window_of : ℕ → ℕ → Db → List ℕ → List Message → Window
window_of t cursor db runs [] = record {
  context = [];
  messages = [];
  run_id = none;
  snapshot_ordinal = cursor;
  run_count = 0;
}
window_of t cursor db runs (m ∷ ms) = record {
  context = context_rows t m.ordinal db;
  messages = m ∷ ms;
  run_id = last_run none runs;
  snapshot_ordinal = last_ordinal cursor (m ∷ ms);
  run_count = length runs;
}

unfoldable pub open_rows : ℕ → ℕ → Db → List Message
unfolding by_ordinal
open_rows t cursor db = by_ordinal (select_where (is_open_row t cursor db) db.messages)

unfoldable pub window : WorkerConfig → ℕ → ℕ → Db → Window
unfolding open_rows pick_runs
window cfg t cursor db =
    let rows = open_rows t cursor db in
    let runs = pick_runs cfg.run_threshold [] rows in
    window_of t cursor db runs (select_where (λ m. member m.run_id runs) rows)

pub data RoundResult : Type 0 where
  idle completed failed : RoundResult

-- The end of a round that has a claim: `error` is the name of the exception that the manager
-- raises. Without messages the manager is not called.
abbrev pub end_round : List Message → Claim → Window → Option Text → ℕ → Db → RoundResult × Db
end_round [] x w error now db = (completed, complete x.token x.thread_id x.cursor 0 now db)
end_round (m ∷ ms) x w none now db =
    (completed, complete x.token x.thread_id w.snapshot_ordinal w.run_count now db)
end_round (m ∷ ms) x w (some e) now db = (failed, fail x.token x.thread_id now e db)

-- What other tasks do to the tables between the transactions of a round: behind the claim, and while
-- the manager works on the window.
pub record Between : Type 0 where
  pub behind_claim : Db → Db
  pub during_manager : Db → Db

abbrev pub after_claim :
    WorkerConfig → Between → Option Text → ℕ → Option Claim × Db → RoundResult × Db
after_claim cfg others error later (none, db) = (idle, db)
after_claim cfg others error later (some x, db) =
    let seen = others.behind_claim db in
    let w = window cfg x.thread_id x.cursor seen in
    end_round w.messages x w error later (others.during_manager seen)

unfoldable pub run_once : WorkerConfig → ℕ → ℕ → Between → Option Text → ℕ → Db → RoundResult × Db
unfolding claim window complete fail
run_once cfg token now others error later db =
    after_claim cfg others error later (claim cfg now token db)
