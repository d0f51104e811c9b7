-- ===== src/Sessions/Detail.antt =====
-- thread_detail of app/database/session_store.py: a thread with its messages and runs in their
-- orders, each run with its result and its artifacts.
use globuy.Prelude.{
  ℕ, Bool, ◌&&◌, ◌||◌, not, Option, none, some, List, [], ◌∷◌, ◌==◌, ltb, leb, find_first,
  select_where, if◌then◌else◌,
}
use globuy.Sessions.Schema.{Db, Text, Thread, is_active, Run, RunResult, Message}
use globuy.Sessions.Action.{Result, ok, err, thread_not_found}
use globuy.Sessions.Rows.{thread_row}
use globuy.Sessions.Artifacts.{Artifact, oldest_first}

-- ORDER BY ordinal
abbrev pub insert_by_ordinal : Message → List Message → List Message
insert_by_ordinal m [] = m ∷ []
insert_by_ordinal m (n ∷ ns) =
    if leb m.ordinal n.ordinal then m ∷ n ∷ ns else n ∷ insert_by_ordinal m ns

abbrev pub sort_messages : List Message → List Message
sort_messages [] = []
sort_messages (m ∷ ms) = insert_by_ordinal m (sort_messages ms)

-- ORDER BY created_at, run_id
abbrev pub insert_by_creation : Run → List Run → List Run
insert_by_creation x [] = x ∷ []
insert_by_creation x (y ∷ ys) =
    if ltb x.created_at y.created_at || x.created_at == y.created_at && leb x.run_id y.run_id
    then x ∷ y ∷ ys
    else y ∷ insert_by_creation x ys

abbrev pub sort_runs : List Run → List Run
sort_runs [] = []
sort_runs (x ∷ xs) = insert_by_creation x (sort_runs xs)

pub record RunDetail : Type 0 where
  pub run : Run
  pub final_text : Option Text
  pub result : Option Text
  pub artifacts : List Artifact

abbrev run_detail : Run → List Artifact → Option RunResult → RunDetail
run_detail x files none = record { run = x; final_text = none; result = none; artifacts = files }
run_detail x files (some o) = record {
  run = x;
  final_text = o.final_text;
  result = o.result_json;
  artifacts = files;
}

abbrev pub run_details : Db → List Artifact → List Run → List RunDetail
run_details db files [] = []
run_details db files (x ∷ xs) =
    run_detail x (select_where (λ f. f.run_id == x.run_id) files)
      (find_first (λ o. o.run_id == x.run_id) db.results)
    ∷ run_details db files xs

pub record ThreadDetail : Type 0 where
  pub thread : Thread
  pub read_only : Bool
  pub messages : List Message
  pub runs : List RunDetail

abbrev pub detail_of : Db → List Artifact → Option Thread → Result ThreadDetail
detail_of db files none = err thread_not_found
detail_of db files (some x) = ok (record {
  thread = x;
  read_only = not (is_active x.status);
  messages = sort_messages (select_where (λ m. m.thread_id == x.thread_id) db.messages);
  runs =
      run_details db (oldest_first (select_where (λ f. f.thread_id == x.thread_id) files))
        (sort_runs (select_where (λ r. r.thread_id == x.thread_id) db.runs));
})

unfoldable pub thread_detail : ℕ → ℕ → Db → List Artifact → Result ThreadDetail
thread_detail t u db files = detail_of db files (thread_row t u db)
