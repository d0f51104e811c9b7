-- ===== src/Memory/Owners.antt =====
-- What a batch of one user leaves alone: the memories of the other users.
use globuy.Prelude.{
  ℕ, ◌+◌, ◌≡◌, refl, sym, ap, ◌∙◌, false, none, some, List, [], ◌∷◌, ◌==◌, select_where, arith,
  Bool-cases, Option-cases, false_not_true, inl, inr,
}
use globuy.Memory.Entries.{
  MemoryEntry, MemoryDb, MemoryResult, TextLibraries, MemoryAction, Change, Origin, done, refused,
  targets, target_of, add_memory, update_memory, delete_memory, confirm_memory, normalize_memory,
  has_repeats, all_owned,
}
use globuy.Memory.Actions.{UnitOfWork, Done, flush, keep_object, update_object}
use globuy.Memory.Guard.{others, Unique, GuardedUnit, flush-Guarded}
use globuy.Memory.Service.{
  after_action, commit, open_unit, list_memories, sort_listed, act, delete_object, run_actions,
  apply_actions, is_silent,
}
use globuy.Memory.Ours.{
  Keeps, KeepsRun, OursAll, OursAll-append, OursAll-of_owned, report-Keeps, keep_object-Keeps,
  add-Keeps, update_object-Keeps, delete_object-Keeps, with_object-Keeps,
}

module _ {foreign : List MemoryEntry} (lib : TextLibraries) (o : Origin) where
  pub after_action-Keeps :
      (next : UnitOfWork → MemoryResult (List Change × UnitOfWork)) (d : Done)
      → Keeps o.user_id foreign d
      → ((w : UnitOfWork) → GuardedUnit o.user_id foreign w → KeepsRun o.user_id foreign (next w))
      → KeepsRun o.user_id foreign (after_action lib o next d)
  after_action-Keeps next (refused e) g k = tt
  after_action-Keeps next (done (c, w)) g k = report-Keeps foreign lib o c (next w) (k w g)

  pub act-Keeps :
      (id : ℕ) (a : MemoryAction) (w : UnitOfWork)
      → GuardedUnit o.user_id foreign w
      → OursAll foreign (target_of a)
      → Keeps o.user_id foreign (act lib o id a w)
  unfolding act
  act-Keeps id (add_memory memory keywords) w g ours =
      add-Keeps lib o id (normalize_memory lib memory) keywords w g
  act-Keeps id (update_memory none memory keywords) w g ours = tt
  act-Keeps id (update_memory (some m) memory keywords) w g ours =
      with_object-Keeps lib o (update_object lib o (normalize_memory lib memory) keywords) m _ w
        (update_object-Keeps lib o (normalize_memory lib memory) keywords) g (ground arith) refl
  act-Keeps id (delete_memory none) w g ours = tt
  act-Keeps id (delete_memory (some m)) w g ours =
      with_object-Keeps lib o (delete_object lib o) m _ w (delete_object-Keeps lib o) g
        (ground arith) refl
  act-Keeps id (confirm_memory none) w g ours = tt
  act-Keeps id (confirm_memory (some m)) w g ours =
      with_object-Keeps lib o (keep_object o.now) m _ w (keep_object-Keeps lib o) g (ground arith)
        refl

  pub run_actions-Keeps :
      (fresh : ℕ → ℕ) (n : ℕ) (actions : List MemoryAction) (w : UnitOfWork)
      → GuardedUnit o.user_id foreign w
      → OursAll foreign (targets actions)
      → KeepsRun o.user_id foreign (run_actions lib o fresh n actions w)
  unfolding run_actions
  run_actions-Keeps fresh n [] w g ours = g
  run_actions-Keeps fresh n (a ∷ rest) w g ours =
      let (here, later) = OursAll-append foreign (target_of a) (targets rest) ours in
      elim (Bool-cases (is_silent lib o a)) [
        | inl silent ↦ rw silent (run_actions-Keeps fresh (n + 1) rest w g later)
        | inr speaks ↦ rw speaks (
            after_action-Keeps (run_actions lib o fresh (n + 1) rest) (act lib o (fresh n) a w)
              (act-Keeps (fresh n) a w g here)
              (λ w' g'. run_actions-Keeps fresh (n + 1) rest w' g' later))
      ]

  commit-Keeps :
      (db : MemoryDb) (r : MemoryResult (List Change × UnitOfWork))
      → others o.user_id db.entries ≡ foreign
      → Unique db.entries
      → KeepsRun o.user_id foreign r
      → (others o.user_id (commit db r).1.entries ≡ foreign) × Unique (commit db r).1.entries
  unfolding commit
  commit-Keeps db (refused e) same unique g = (same, unique)
  commit-Keeps db (done (cs, w)) same unique g = elim (Option-cases (flush w)) [
    | inl conflict ↦ rw conflict (same, unique)
    | inr (w', flushed) ↦
        let g' = flush-Guarded w g w' flushed in rw flushed (g'.stored_kept, g'.stored_unique)
  ]

select-others :
    (u v : ℕ) (xs : List MemoryEntry)
    → (v == u) ≡ false
    → select_where (λ x. x.user_id == v) (others u xs) ≡ select_where (λ x. x.user_id == v) xs
select-others u v [] h = refl
select-others u v (x ∷ xs) h = ground (arith, select-others u v xs)

pub open_unit-Guarded :
    (u : ℕ) (db : MemoryDb) → Unique db.entries → GuardedUnit u (others u db.entries) (open_unit db)
open_unit-Guarded u db unique = record {
  stored_kept = refl;
  objects_kept = refl;
  removed_ours = λ m k. absurd (false_not_true k);
  stored_unique = unique;
  objects_unique = unique;
}

-- Whatever a batch of actions of one user holds, and however it ends, every other user's list of
-- memories is as it was, and the identifiers of the memories stay distinct.
pub batch_keeps_others :
    (lib : TextLibraries) (o : Origin) (fresh : ℕ → ℕ) (actions : List MemoryAction) (db : MemoryDb)
    (v : ℕ)
    → Unique db.entries
    → (v == o.user_id) ≡ false
    → (list_memories v (apply_actions lib o fresh actions db).1 ≡ list_memories v db)
      × Unique (apply_actions lib o fresh actions db).1.entries
unfolding apply_actions list_memories
batch_keeps_others lib o fresh actions db v unique other =
    elim (Bool-cases (has_repeats (targets actions))) [
      | inl repeated ↦ rw repeated (refl, unique)
      | inr distinct ↦ rw distinct (elim (Bool-cases (all_owned o.user_id db (targets actions))) [
        | inl owned ↦
            let (kept, still) =
              commit-Keeps lib o db (run_actions lib o fresh 0 actions (open_unit db)) refl unique (
                run_actions-Keeps lib o fresh 0 actions (open_unit db)
                  (open_unit-Guarded o.user_id db unique)
                  (OursAll-of_owned o.user_id db (targets actions) unique owned)) in
            rw owned (
              ap sort_listed (
                  sym (select-others o.user_id v _ other)
                  ∙ ap (select_where (λ x. x.user_id == v)) kept
                  ∙ select-others o.user_id v db.entries other),
              still,
            )
        | inr unknown ↦ rw unknown (refl, unique)
      ])
    ]
