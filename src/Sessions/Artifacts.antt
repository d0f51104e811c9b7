-- ===== src/Sessions/Artifacts.antt =====
-- The artifact operations of app/database/session_store.py. The table of artifacts stands beside
-- the other tables; `pathlib` says whether a path is absolute and whether it has a part "..".
use globuy.Prelude.{
  Bool-cases, inl, inr, ℕ, ◌≡◌, refl, Bool, ◌&&◌, ◌||◌, Option, none, some, List, [], ◌∷◌, ◌==◌,
  ==-refl, ltb, leb, any, find_first, select_where, if◌then◌else◌,
}
use globuy.Sessions.Schema.{Db, Text, is_active}
use globuy.Sessions.Action.{
  Result, ok, err, file_not_found, invalid_artifact_path, thread_archived, artifact_exists,
}
use globuy.Sessions.Runs.{RunView, get_run}

pub record FilePath : Type 0 where
  pub is_absolute : Bool
  pub has_parent_part : Bool
  pub text : Text

pub record Artifact : Type 0 where
  pub file_id : ℕ
  pub thread_id : ℕ
  pub run_id : ℕ
  pub filename : Text
  pub kind : Text
  pub media_type : Text
  pub size : ℕ
  pub relative_path : Text
  pub created_at : ℕ

abbrev pub is_of_run : ℕ → ℕ → Artifact → Bool
is_of_run t r x = x.thread_id == t && x.run_id == r

-- ORDER BY created_at, file_id
abbrev insert_artifact_row : Artifact → List Artifact → List Artifact
insert_artifact_row x [] = x ∷ []
insert_artifact_row x (y ∷ ys) =
    if ltb x.created_at y.created_at || x.created_at == y.created_at && leb x.file_id y.file_id
    then x ∷ y ∷ ys
    else y ∷ insert_artifact_row x ys

abbrev pub oldest_first : List Artifact → List Artifact
oldest_first [] = []
oldest_first (x ∷ xs) = insert_artifact_row x (oldest_first xs)

abbrev pub listed : Result RunView → List Artifact → Result (List Artifact)
listed (err e) files = err e
listed (ok run) files = ok (oldest_first files)

unfoldable pub list_artifacts : ℕ → ℕ → Db → List Artifact → Result (List Artifact)
list_artifacts t r db files = listed (get_run t r none db).0 (select_where (is_of_run t r) files)

abbrev pub or_missing : Option Artifact → Result Artifact
or_missing none = err file_not_found
or_missing (some x) = ok x

unfoldable pub artifact : ℕ → ℕ → ℕ → List Artifact → Result Artifact
artifact t r f files = or_missing (find_first (λ x. is_of_run t r x && x.file_id == f) files)

-- The insertion: the IntegrityError of a taken key becomes an error of its own.
abbrev pub add_artifact : Artifact → List Artifact → Result Artifact × List Artifact
add_artifact x files =
    if any (λ y. y.file_id == x.file_id) files
    then (err artifact_exists, files)
    else (ok x, x ∷ files)

abbrev pub add_to_run : Result RunView → Artifact → List Artifact → Result Artifact × List Artifact
add_to_run (err e) x files = (err e, files)
add_to_run (ok run) x files =
    if is_active run.thread_status then add_artifact x files else (err thread_archived, files)

-- `file_id` is the caller's, or a fresh one.
unfoldable pub register_artifact :
    ℕ
    → ℕ
    → Text
    → Text
    → Text
    → ℕ
    → FilePath
    → ℕ
    → ℕ
    → Db
    → List Artifact
    → Result Artifact × List Artifact
register_artifact t r filename kind media_type size path file_id now db files =
    if path.is_absolute || path.has_parent_part
    then (err invalid_artifact_path, files)
    else add_to_run (get_run t r none db).0
        (record {
          file_id = file_id;
          thread_id = t;
          run_id = r;
          filename = filename;
          kind = kind;
          media_type = media_type;
          size = size;
          relative_path = path.text;
          created_at = now;
        })
        files

add_artifact_found :
    (x : Artifact) (files after : List Artifact) {got : Artifact}
    → add_artifact x files ≡ (ok got, after)
    → (got ≡ x) × (after ≡ x ∷ files)
add_artifact_found x files after {got} h =
    elim (Bool-cases (any (λ y. y.file_id == x.file_id) files)) [
      | inl taken ↦
          let h' : ◌≡◌ {A = Result Artifact × List Artifact} (err artifact_exists, files)
              (ok got, after) =
            rw taken at h in
          cc
      | inr free ↦
          let h' : ◌≡◌ {A = Result Artifact × List Artifact} (ok x, x ∷ files) (ok got, after) =
            rw free at h in
          (cc, cc)
    ]

add_to_run_found :
    (run : Result RunView) (x : Artifact) (files after : List Artifact) {got : Artifact}
    → add_to_run run x files ≡ (ok got, after)
    → (got ≡ x) × (after ≡ x ∷ files)
add_to_run_found (err e) x files after h = cc
add_to_run_found (ok run) x files after {got} h = elim (Bool-cases (is_active run.thread_status)) [
  | inl active_yet ↦ add_artifact_found x files after (rw active_yet at h)
  | inr shelved ↦
      let h' : ◌≡◌ {A = Result Artifact × List Artifact} (err thread_archived, files)
          (ok got, after) =
        rw shelved at h in
      cc
]

added_is_found :
    (t r : ℕ) (run : Result RunView) (x : Artifact) (files after : List Artifact) {got : Artifact}
    → x.thread_id ≡ t
    → x.run_id ≡ r
    → add_to_run run x files ≡ (ok got, after)
    → artifact t r x.file_id after ≡ ok got
unfolding artifact
added_is_found t r run x files after {got} in_thread in_run h =
    let (same, grown) = add_to_run_found run x files after h in
    rw (same, grown) (rw (in_thread, in_run) (rw (==-refl t, ==-refl r, ==-refl x.file_id) refl))

-- What is registered is found again under its thread, its run and its identifier.
registered_artifact_is_found :
    (t r : ℕ) (filename kind media_type : Text) (size : ℕ) (path : FilePath) (file_id now : ℕ)
    (db : Db) (files : List Artifact) {got : Artifact} {after : List Artifact}
    → register_artifact t r filename kind media_type size path file_id now db files
      ≡ (ok got, after)
    → artifact t r file_id after ≡ ok got
unfolding register_artifact
registered_artifact_is_found t r filename kind media_type size path file_id now db files {got}
      {after} h =
    elim (Bool-cases (path.is_absolute || path.has_parent_part)) [
      | inl outside ↦
          let h' : ◌≡◌ {A = Result Artifact × List Artifact} (err invalid_artifact_path, files)
              (ok got, after) =
            rw outside at h in
          cc
      | inr inside ↦
          added_is_found t r (get_run t r none db).0
            (record {
              file_id = file_id;
              thread_id = t;
              run_id = r;
              filename = filename;
              kind = kind;
              media_type = media_type;
              size = size;
              relative_path = path.text;
              created_at = now;
            })
            files after refl refl (rw inside at h)
    ]
