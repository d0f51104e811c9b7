-- ===== src/Memory/Refusals.antt =====
-- With what errors a batch of distinct memories of the user can be refused.
use globuy.Prelude.{
  ℕ, ◌+◌, ◌≡◌, refl, Bool, true, false, Option, none, some, List, [], ◌∷◌, any, find_first, inl,
  inr, Bool-cases, Option-cases, same_text,
}
use globuy.Sessions.Schema.{Text}
use globuy.Memory.Entries.{
  MemoryEntry, MemoryDb, MemoryError, MemoryResult, TextLibraries, MemoryAction, Change, Origin,
  done, refused, repeated_target, unknown_target, add_memory, update_memory, delete_memory,
  confirm_memory, has_id, is_empty, targets, has_repeats, all_owned, normalize_memory,
}
use globuy.Memory.Actions.{
  UnitOfWork, Done, flush, keep_object, insert_or_keep, add_unless, update_object, is_taken,
}
use globuy.Memory.Service.{
  add, act, delete_object, with_object, after_action, report, is_silent, run_actions, commit,
  open_unit, apply_actions,
}

-- An error of one of the two tests of apply_actions.
abbrev pub is_target_error : MemoryError → Bool
is_target_error repeated_target = true
is_target_error unknown_target = true
is_target_error _ = false

abbrev PastTests : Done → Type 0
PastTests (refused e) = is_target_error e ≡ false
PastTests (done (c, w)) = Unit {0}

abbrev PastTestsRun : MemoryResult (List Change × UnitOfWork) → Type 0
PastTestsRun (refused e) = is_target_error e ≡ false
PastTestsRun (done (cs, w)) = Unit {0}

abbrev pub PastTestsAll : MemoryResult (List Change) → Type 0
PastTestsAll (refused e) = is_target_error e ≡ false
PastTestsAll (done cs) = Unit {0}

PastTests-report :
    (lib : TextLibraries) (o : Origin) (c : Change) (r : MemoryResult (List Change × UnitOfWork))
    → PastTestsRun r
    → PastTestsRun (report lib o c r)
PastTests-report lib o c (refused e) h = h
PastTests-report lib o c (done (cs, w)) h = tt

PastTests-after_action :
    (lib : TextLibraries) (o : Origin) (next : UnitOfWork → MemoryResult (List Change × UnitOfWork))
    (d : Done)
    → PastTests d
    → ((w : UnitOfWork) → PastTestsRun (next w))
    → PastTestsRun (after_action lib o next d)
PastTests-after_action lib o next (refused e) h k = h
PastTests-after_action lib o next (done (c, w)) h k = PastTests-report lib o c (next w) (k w)

module _ (lib : TextLibraries) (o : Origin) where
  insert_or_keep-PastTests :
      (x : MemoryEntry) (r : Option MemoryEntry) (w : UnitOfWork)
      → PastTests (insert_or_keep lib o x r w)
  unfolding insert_or_keep
  insert_or_keep-PastTests x (some d) w = tt
  insert_or_keep-PastTests x none w = elim (Bool-cases (any (has_id x.memory_id) w.stored)) [
    | inl used ↦ rw used refl
    | inr free ↦ rw free tt
  ]

  add_unless-PastTests :
      (id : ℕ) (value : Text) (keywords : List Text) (r : Option MemoryEntry) (w : UnitOfWork)
      → PastTests (add_unless lib o id value keywords r w)
  unfolding add_unless
  add_unless-PastTests id value keywords (some d) w = tt
  add_unless-PastTests id value keywords none w = elim (Option-cases (flush w)) [
    | inl conflict ↦ rw conflict refl
    | inr (w', flushed) ↦ rw flushed (insert_or_keep-PastTests _ _ w')
  ]

  add-PastTests :
      (id : ℕ) (value : Text) (keywords : List Text) (w : UnitOfWork)
      → PastTests (add lib o id value keywords w)
  unfolding add
  add-PastTests id value keywords w = elim (Bool-cases (is_empty value)) [
    | inl blank ↦ rw blank refl
    | inr text ↦ rw text (add_unless-PastTests id value keywords _ w)
  ]

  update_object-PastTests :
      (value : Text) (keywords : List Text) (x : MemoryEntry) (w : UnitOfWork)
      → PastTests (update_object lib o value keywords x w)
  unfolding update_object
  update_object-PastTests value keywords x w = elim (Bool-cases (is_empty value)) [
    | inl blank ↦ rw blank refl
    | inr text ↦ rw text (elim (Bool-cases (same_text value x.memory)) [
      | inl same ↦ rw same tt
      | inr new ↦ rw new (elim (Bool-cases (is_taken lib o value x w)) [
        | inl taken ↦ rw taken refl
        | inr free ↦ rw free tt
      ])
    ])
  ]

  with_object-PastTests :
      (f : MemoryEntry → UnitOfWork → Done) (w : UnitOfWork) (r : Option MemoryEntry)
      → ((x : MemoryEntry) → PastTests (f x w))
      → PastTests (with_object lib o f w r)
  with_object-PastTests f w none h = refl
  with_object-PastTests f w (some x) h = h x

  act-PastTests : (id : ℕ) (a : MemoryAction) (w : UnitOfWork) → PastTests (act lib o id a w)
  unfolding act
  act-PastTests id (add_memory memory keywords) w =
      add-PastTests id (normalize_memory lib memory) keywords w
  act-PastTests id (update_memory none memory keywords) w = refl
  act-PastTests id (update_memory (some m) memory keywords) w =
      with_object-PastTests (update_object lib o (normalize_memory lib memory) keywords) w
        (find_first (has_id m) w.objects)
        (λ x. update_object-PastTests (normalize_memory lib memory) keywords x w)
  act-PastTests id (delete_memory none) w = refl
  act-PastTests id (delete_memory (some m)) w =
      with_object-PastTests (delete_object lib o) w (find_first (has_id m) w.objects) (λ x. tt)
  act-PastTests id (confirm_memory none) w = refl
  act-PastTests id (confirm_memory (some m)) w =
      with_object-PastTests (keep_object o.now) w (find_first (has_id m) w.objects) (λ x. tt)

  run_actions-PastTests :
      (fresh : ℕ → ℕ) (n : ℕ) (actions : List MemoryAction) (w : UnitOfWork)
      → PastTestsRun (run_actions lib o fresh n actions w)
  unfolding run_actions
  run_actions-PastTests fresh n [] w = tt
  run_actions-PastTests fresh n (a ∷ rest) w = elim (Bool-cases (is_silent lib o a)) [
    | inl silent ↦ rw silent (run_actions-PastTests fresh (n + 1) rest w)
    | inr speaks ↦ rw speaks (
        PastTests-after_action lib o (run_actions lib o fresh (n + 1) rest)
          (act lib o (fresh n) a w) (act-PastTests (fresh n) a w)
          (run_actions-PastTests fresh (n + 1) rest))
  ]

  commit-PastTests :
      (db : MemoryDb) (r : MemoryResult (List Change × UnitOfWork))
      → PastTestsRun r
      → PastTestsAll (commit db r).0
  unfolding commit
  commit-PastTests db (refused e) h = h
  commit-PastTests db (done (cs, w)) h = elim (Option-cases (flush w)) [
    | inl conflict ↦ rw conflict refl
    | inr (w', flushed) ↦ rw flushed tt
  ]

  pub apply_actions-PastTests :
      (fresh : ℕ → ℕ) (actions : List MemoryAction) (db : MemoryDb)
      → has_repeats (targets actions) ≡ false
      → all_owned o.user_id db (targets actions) ≡ true
      → PastTestsAll (apply_actions lib o fresh actions db).0
  unfolding apply_actions
  apply_actions-PastTests fresh actions db distinct owned =
      rw (distinct, owned)
        (commit-PastTests db (run_actions lib o fresh 0 actions (open_unit db))
          (run_actions-PastTests fresh 0 actions (open_unit db)))
