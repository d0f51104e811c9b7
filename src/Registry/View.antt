-- ===== src/Registry/View.antt =====
-- run_status, _public_artifact and close of app/api/run_registry.py.
use Prim.Native.String.{String}
use globuy.Prelude.{ℕ, Bool, true, Option, none, some, List, [], ◌∷◌, if◌then◌else◌}
use globuy.Sessions.Schema.{Text, RunStatus, cancelling}
use globuy.Sessions.Action.{Result, ok, err}
use globuy.Sessions.Runs.{RunView, get_run}
use globuy.Sessions.Artifacts.{Artifact, list_artifacts}
use globuy.Broker.Table.{CursorInfo, cursor_info}
use globuy.Registry.Task.{World, RunHandle}

-- The download link is made of the identifiers.
pub record PublicArtifact : Type 0 where
  pub file_id : ℕ
  pub filename : Text
  pub kind : Text
  pub media_type : Text
  pub size : ℕ
  pub created_at : ℕ

abbrev pub public_artifact : Artifact → PublicArtifact
public_artifact x = record {
  file_id = x.file_id;
  filename = x.filename;
  kind = x.kind;
  media_type = x.media_type;
  size = x.size;
  created_at = x.created_at;
}

abbrev pub public_artifacts : List Artifact → List PublicArtifact
public_artifacts [] = []
public_artifacts (x ∷ xs) = public_artifact x ∷ public_artifacts xs

pub record RunStatusView : Type 0 where
  pub status : RunStatus
  pub created_at : ℕ
  pub started_at : Option ℕ
  pub finished_at : Option ℕ
  pub cursor : CursorInfo
  pub result : Option Text
  pub artifacts : List PublicArtifact
  pub error : Option (String × Option Text)

abbrev pub error_of : Option String → Option Text → Option (String × Option Text)
error_of none message = none
error_of (some code) message = some (code, message)

abbrev pub view_files :
    (Option Text → Option Text)
    → RunView
    → CursorInfo
    → Result (List Artifact)
    → Result RunStatusView
view_files enrich v cursor (err e) = err e
view_files enrich v cursor (ok files) = ok (record {
  status = v.run.status;
  created_at = v.run.created_at;
  started_at = v.run.started_at;
  finished_at = v.run.finished_at;
  cursor = cursor;
  result = enrich v.result;
  artifacts = public_artifacts files;
  error = error_of v.run.error_code v.run.error_message;
})

abbrev pub view_run :
    (Option Text → Option Text)
    → ℕ
    → ℕ
    → World
    → List Artifact
    → Result RunView
    → Result RunStatusView
view_run enrich t r w files (err e) = err e
view_run enrich t r w files (ok v) =
    view_files enrich v (cursor_info t r w.broker) (list_artifacts t r w.db files)

-- `enrich` is enrich_task_result of app/search/catalog_images.py.
unfoldable pub run_status :
    (Option Text → Option Text) → ℕ → ℕ → World → List Artifact → Result RunStatusView
run_status enrich t r w files = view_run enrich t r w files (get_run t r none w.db).0

-- Every task that is not done is asked to stop. What happens until they have stopped is an argument.
abbrev pub stop_all : (RunHandle → Bool) → List RunHandle → List RunHandle
stop_all is_done [] = []
stop_all is_done (h ∷ hs) =
    (if is_done h then h else record h { status = cancelling; cancel_requested = true })
    ∷ stop_all is_done hs

unfoldable pub close_registry : (RunHandle → Bool) → (World → World) → World → World
close_registry is_done waits w = waits (record w { active = stop_all is_done w.active })
