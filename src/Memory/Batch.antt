-- ===== src/Memory/Batch.antt =====
-- What every call of the memory service preserves: distinct identifiers, one memory for a user and a
-- text, and an event in the outbox for the current version of every memory.
use globuy.Prelude.{
  Bool, ℕ, ◌+◌, ◌≡◌, refl, sym, false, Option, none, some, List, [], ◌∷◌, find_first, arith,
  Bool-cases, Option-cases, inl, inr, count_if-delete_le, find_first-some, subst, ==_iff,
}
use globuy.Sessions.Schema.{Text}
use globuy.Memory.Entries.{
  MemoryEntry, MemoryDb, MemoryResult, TextLibraries, MemoryAction, Change, Origin, done, refused,
  has_id, targets, target_of, add_memory, update_memory, delete_memory, confirm_memory,
  normalize_memory, has_repeats, all_owned,
}
use globuy.Memory.Actions.{
  UnitOfWork, Done, flush, is_removed, has_conflict, keep_object, update_object,
}
use globuy.Memory.Guard.{Unique, flush-some, GuardedUnit}
use globuy.Memory.Service.{
  report, after_action, with_object, commit, open_unit, act, delete_object, run_actions,
  apply_actions, is_silent,
}
use globuy.Memory.Announced.{
  Announced, Settled, SettledDone, remaining-announced, keep_object-Settled, add-Settled,
  update_object-Settled, delete_object-Settled,
}
use globuy.Memory.Ours.{Keeps, OursAll, OursAll-append, OursAll-of_owned}
use globuy.Memory.Owners.{act-Keeps, open_unit-Guarded}

module _ (base : ℕ → Text → Bool) where
  pub record Ordered (db : MemoryDb) : Type 0 where
    pub unique : Unique db.entries
    pub no_conflict : has_conflict db.entries ≡ false
    pub announced : Announced base db

  abbrev ReadyToEnd : MemoryResult (List Change × UnitOfWork) → Type 0
  ReadyToEnd (refused e) = Unit {0}
  ReadyToEnd (done (cs, w)) = Unique w.objects × Settled base w

  ReadyToEnd-report :
      (lib : TextLibraries) (o : Origin) (c : Change) (r : MemoryResult (List Change × UnitOfWork))
      → ReadyToEnd r
      → ReadyToEnd (report lib o c r)
  ReadyToEnd-report lib o c (refused e) h = tt
  ReadyToEnd-report lib o c (done (cs, w)) h = h

  module _ (lib : TextLibraries) (o : Origin) where
    with_object-Settled :
        (f : MemoryEntry → UnitOfWork → Done) (m : ℕ) (r : Option MemoryEntry) (w : UnitOfWork)
        → ((x : MemoryEntry)
            → find_first (has_id x.memory_id) w.objects ≡ some x
            → SettledDone base (f x w))
        → find_first (has_id m) w.objects ≡ r
        → SettledDone base (with_object lib o f w r)
    with_object-Settled f m none w k e = tt
    with_object-Settled f m (some x) w k e =
        let same : x.memory_id ≡ m =
          (==_iff x.memory_id m).0 (find_first-some (has_id m) w.objects x e).0 in
        k x (subst (λ n. find_first (has_id n) w.objects ≡ some x) (sym same) e)

    act-Settled :
        (id : ℕ) (a : MemoryAction) (w : UnitOfWork)
        → Unique w.objects
        → Settled base w
        → SettledDone base (act lib o id a w)
    unfolding act
    act-Settled id (add_memory memory keywords) w u s =
        add-Settled base lib o id (normalize_memory lib memory) keywords w s
    act-Settled id (update_memory none memory keywords) w u s = tt
    act-Settled id (update_memory (some m) memory keywords) w u s =
        with_object-Settled (update_object lib o (normalize_memory lib memory) keywords) m _ w
          (λ x e.
            update_object-Settled base lib o (normalize_memory lib memory) keywords x w s e
              (u x.memory_id))
          refl
    act-Settled id (delete_memory none) w u s = tt
    act-Settled id (delete_memory (some m)) w u s =
        with_object-Settled (delete_object lib o) m _ w
          (λ x e. delete_object-Settled base lib o x w s) refl
    act-Settled id (confirm_memory none) w u s = tt
    act-Settled id (confirm_memory (some m)) w u s =
        with_object-Settled (keep_object o.now) m _ w (λ x e. keep_object-Settled base lib o x w s)
          refl

    after_action-ReadyToEnd :
        {foreign : List MemoryEntry} (next : UnitOfWork → MemoryResult (List Change × UnitOfWork))
        (d : Done)
        → Keeps o.user_id foreign d
        → SettledDone base d
        → ((w : UnitOfWork)
            → GuardedUnit o.user_id foreign w
            → Settled base w
            → ReadyToEnd (next w))
        → ReadyToEnd (after_action lib o next d)
    after_action-ReadyToEnd next (refused e) g s k = tt
    after_action-ReadyToEnd next (done (c, w)) g s k = ReadyToEnd-report lib o c (next w) (k w g s)

    run_actions-ReadyToEnd :
        {foreign : List MemoryEntry} (fresh : ℕ → ℕ) (n : ℕ) (actions : List MemoryAction)
        (w : UnitOfWork)
        → GuardedUnit o.user_id foreign w
        → OursAll foreign (targets actions)
        → Settled base w
        → ReadyToEnd (run_actions lib o fresh n actions w)
    unfolding run_actions
    run_actions-ReadyToEnd fresh n [] w g ours s = (g.objects_unique, s)
    run_actions-ReadyToEnd {foreign} fresh n (a ∷ rest) w g ours s =
        let (here, later) = OursAll-append foreign (target_of a) (targets rest) ours in
        elim (Bool-cases (is_silent lib o a)) [
          | inl silent ↦ rw silent (run_actions-ReadyToEnd fresh (n + 1) rest w g later s)
          | inr speaks ↦ rw speaks (
              after_action-ReadyToEnd (run_actions lib o fresh (n + 1) rest)
                (act lib o (fresh n) a w) (act-Keeps lib o (fresh n) a w g here)
                (act-Settled (fresh n) a w g.objects_unique s)
                (λ w' g' s'. run_actions-ReadyToEnd fresh (n + 1) rest w' g' later s'))
        ]

    commit-Ordered :
        (db : MemoryDb) (r : MemoryResult (List Change × UnitOfWork))
        → Ordered db
        → ReadyToEnd r
        → Ordered (commit db r).1
    unfolding commit
    commit-Ordered db (refused e) h k = h
    commit-Ordered db (done (cs, w)) h (unique, settled) = elim (Option-cases (flush w)) [
      | inl conflict ↦ rw conflict h
      | inr (w', flushed) ↦
          let (stored, objects, removed, outbox, free) = flush-some w w' flushed in
          rw flushed (record {
            unique = λ m. rw stored (
                omega (
                  arith,
                  count_if-delete_le (has_id m) (is_removed w.removed) w.objects,
                  unique m,
                ));
            no_conflict = rw stored free;
            announced =
                rw (stored, outbox) (remaining-announced base w.removed w.outbox w.objects settled);
          })
    ]

    -- A batch keeps the tables in order.
    pub apply_actions-Ordered :
        (fresh : ℕ → ℕ) (actions : List MemoryAction) (db : MemoryDb)
        → Ordered db
        → Ordered (apply_actions lib o fresh actions db).1
    unfolding apply_actions
    apply_actions-Ordered fresh actions db h = elim (Bool-cases (has_repeats (targets actions))) [
      | inl repeated ↦ rw repeated h
      | inr distinct ↦ rw distinct (elim (Bool-cases (all_owned o.user_id db (targets actions))) [
        | inl owned ↦ rw owned (
            commit-Ordered db (run_actions lib o fresh 0 actions (open_unit db)) h (
              run_actions-ReadyToEnd fresh 0 actions (open_unit db)
                (open_unit-Guarded o.user_id db h.unique)
                (OursAll-of_owned o.user_id db (targets actions) h.unique owned) h.announced))
        | inr unknown ↦ rw unknown h
      ])
    ]

-- No text is old: every memory has its event.
abbrev pub none_old : ℕ → Text → Bool
none_old m t = false

abbrev pub InOrder : MemoryDb → Type 0
InOrder db = Ordered none_old db
