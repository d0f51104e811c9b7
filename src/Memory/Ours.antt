-- ===== src/Memory/Ours.antt =====
-- What one action of a user leaves alone: the memories of the other users.
use globuy.Prelude.{
  ℕ, ◌≡◌, refl, sym, ◌∙◌, true, not, Option, none, some, List, [], ◌∷◌, ◌++◌, any, all, find_first,
  arith, Bool-cases, Option-cases, same_text, inl, inr, find_first-some, subst, ==_iff,
}
use globuy.Sessions.Schema.{Text}
use globuy.Memory.Entries.{
  MemoryEntry, MemoryDb, MemoryResult, TextLibraries, Change, Origin, done, refused, has_id,
  has_content, is_empty, memory_hash, all_owned,
}
use globuy.Memory.Actions.{
  UnitOfWork, Done, flush, confirmed, keep_object, object_of, insert_or_keep, add_flushed,
  add_unless, new_entry, revised, update_object, retired, change_object, is_taken,
}
use globuy.Memory.Guard.{
  others, Ours, Unique, others-append, Ours-of_owned, Ours-of_found, flush-some, GuardedUnit,
  change-Guarded, remove-Guarded, flush-Guarded, Unique-append,
}
use globuy.Memory.Service.{add, report, with_object, delete_object}

abbrev pub Keeps : ℕ → List MemoryEntry → Done → Type 0
Keeps u foreign (refused e) = Unit {0}
Keeps u foreign (done (c, w)) = GuardedUnit u foreign w

abbrev pub KeepsRun : ℕ → List MemoryEntry → MemoryResult (List Change × UnitOfWork) → Type 0
KeepsRun u foreign (refused e) = Unit {0}
KeepsRun u foreign (done (cs, w)) = GuardedUnit u foreign w

abbrev pub OursAll : List MemoryEntry → List ℕ → Type 0
OursAll foreign ms = all (λ m. not (any (has_id m) foreign)) ms ≡ true

pub OursAll-append :
    (foreign : List MemoryEntry) (ms ns : List ℕ)
    → OursAll foreign (ms ++ ns)
    → OursAll foreign ms × OursAll foreign ns
OursAll-append foreign [] ns h = (refl, h)
OursAll-append foreign (m ∷ ms) ns h = ground (arith, OursAll-append foreign ms ns)

pub OursAll-of_owned :
    (u : ℕ) (db : MemoryDb) (ms : List ℕ)
    → Unique db.entries
    → all_owned u db ms ≡ true
    → OursAll (others u db.entries) ms
OursAll-of_owned u db [] unique h = refl
OursAll-of_owned u db (m ∷ ms) unique h =
    ground (arith, unique m, Ours-of_owned u m db.entries, OursAll-of_owned u db ms unique)

pub report-Keeps :
    (foreign : List MemoryEntry) (lib : TextLibraries) (o : Origin) (c : Change)
    (r : MemoryResult (List Change × UnitOfWork))
    → KeepsRun o.user_id foreign r
    → KeepsRun o.user_id foreign (report lib o c r)
report-Keeps foreign lib o c (refused e) g = tt
report-Keeps foreign lib o c (done (cs, w)) g = g

pub object_of-id :
    (row : MemoryEntry) (w : UnitOfWork) → (object_of row w).memory_id ≡ row.memory_id
object_of-id row w = elim (Option-cases (find_first (has_id row.memory_id) w.objects)) [
  | inl missing ↦ rw missing refl
  | inr (x, found) ↦ rw found (
      (==_iff x.memory_id row.memory_id).0
        (find_first-some (has_id row.memory_id) w.objects x found).0)
]

module _ {foreign : List MemoryEntry} (lib : TextLibraries) (o : Origin) where
  pub keep_object-Keeps :
      (x : MemoryEntry) (w : UnitOfWork)
      → GuardedUnit o.user_id foreign w
      → Ours foreign x.memory_id
      → Keeps o.user_id foreign (keep_object o.now x w)
  unfolding keep_object
  keep_object-Keeps x w g ours =
      change-Guarded w g x.memory_id (confirmed o.now) ours (λ y. refl) (λ y. refl)

  keep_duplicate-Keeps :
      (digest : Text) (d : MemoryEntry) (w : UnitOfWork)
      → GuardedUnit o.user_id foreign w
      → find_first (has_content o.user_id digest) w.stored ≡ some d
      → Keeps o.user_id foreign (keep_object o.now (object_of d w) w)
  keep_duplicate-Keeps digest d w g e = keep_object-Keeps (object_of d w) w g (
      rw (object_of-id d w) (
        subst (λ xs. Ours xs d.memory_id) g.stored_kept
          (Ours-of_found o.user_id digest w.stored d e g.stored_unique)))

  insert_or_keep-Keeps :
      (x : MemoryEntry) (r : Option MemoryEntry) (w : UnitOfWork)
      → GuardedUnit o.user_id foreign w
      → w.objects ≡ w.stored
      → x.user_id ≡ o.user_id
      → find_first (has_content o.user_id x.content_hash) w.stored ≡ r
      → Keeps o.user_id foreign (insert_or_keep lib o x r w)
  unfolding insert_or_keep
  insert_or_keep-Keeps x (some d) w g same mine e = keep_duplicate-Keeps x.content_hash d w g e
  insert_or_keep-Keeps x none w g same mine e =
      elim (Bool-cases (any (has_id x.memory_id) w.stored)) [
        | inl used ↦ rw used tt
        | inr free ↦ rw free (record {
          stored_kept = others-append o.user_id x w.stored mine ∙ g.stored_kept;
          objects_kept = rw same (others-append o.user_id x w.stored mine ∙ g.stored_kept);
          removed_ours = g.removed_ours;
          stored_unique = Unique-append x w.stored g.stored_unique free;
          objects_unique = rw same (Unique-append x w.stored g.stored_unique free);
        })
      ]

  add_flushed-Keeps :
      (x : MemoryEntry) (r : Option UnitOfWork) (w : UnitOfWork)
      → GuardedUnit o.user_id foreign w
      → x.user_id ≡ o.user_id
      → flush w ≡ r
      → Keeps o.user_id foreign (add_flushed lib o x r)
  unfolding add_flushed
  add_flushed-Keeps x none w g mine e = tt
  add_flushed-Keeps x (some w') w g mine e =
      let (stored, objects, _, _, _) = flush-some w w' e in
      insert_or_keep-Keeps x _ w' (flush-Guarded w g w' e) (objects ∙ sym stored) mine refl

  add_unless-Keeps :
      (id : ℕ) (value : Text) (keywords : List Text) (r : Option MemoryEntry) (w : UnitOfWork)
      → GuardedUnit o.user_id foreign w
      → find_first (has_content o.user_id (memory_hash lib value)) w.stored ≡ r
      → Keeps o.user_id foreign (add_unless lib o id value keywords r w)
  unfolding add_unless
  add_unless-Keeps id value keywords (some d) w g e =
      keep_duplicate-Keeps (memory_hash lib value) d w g e
  add_unless-Keeps id value keywords none w g e =
      add_flushed-Keeps (new_entry lib o id value keywords) (flush w) w g refl refl

  pub add-Keeps :
      (id : ℕ) (value : Text) (keywords : List Text) (w : UnitOfWork)
      → GuardedUnit o.user_id foreign w
      → Keeps o.user_id foreign (add lib o id value keywords w)
  unfolding add
  add-Keeps id value keywords w g = elim (Bool-cases (is_empty value)) [
    | inl blank ↦ rw blank tt
    | inr text ↦ rw text (add_unless-Keeps id value keywords _ w g refl)
  ]

  pub update_object-Keeps :
      (value : Text) (keywords : List Text) (x : MemoryEntry) (w : UnitOfWork)
      → GuardedUnit o.user_id foreign w
      → Ours foreign x.memory_id
      → Keeps o.user_id foreign (update_object lib o value keywords x w)
  unfolding update_object
  update_object-Keeps value keywords x w g ours = elim (Bool-cases (is_empty value)) [
    | inl blank ↦ rw blank tt
    | inr text ↦ rw text (elim (Bool-cases (same_text value x.memory)) [
      | inl same ↦ rw same (keep_object-Keeps x w g ours)
      | inr new ↦ rw new (elim (Bool-cases (is_taken lib o value x w)) [
        | inl taken ↦ rw taken tt
        | inr free ↦ rw free (
            change-Guarded w g x.memory_id (revised lib o value keywords) ours (λ y. refl)
              (λ y. refl))
      ])
    ])
  ]

  pub delete_object-Keeps :
      (x : MemoryEntry) (w : UnitOfWork)
      → GuardedUnit o.user_id foreign w
      → Ours foreign x.memory_id
      → Keeps o.user_id foreign (delete_object lib o x w)
  unfolding delete_object
  delete_object-Keeps x w g ours =
      remove-Guarded (change_object x.memory_id (retired lib o) w)
        (change-Guarded w g x.memory_id (retired lib o) ours (λ y. refl) (λ y. refl)) x.memory_id
        ours

  pub with_object-Keeps :
      (f : MemoryEntry → UnitOfWork → Done) (m : ℕ) (r : Option MemoryEntry) (w : UnitOfWork)
      → ((x : MemoryEntry) (v : UnitOfWork)
          → GuardedUnit o.user_id foreign v
          → Ours foreign x.memory_id
          → Keeps o.user_id foreign (f x v))
      → GuardedUnit o.user_id foreign w
      → Ours foreign m
      → find_first (has_id m) w.objects ≡ r
      → Keeps o.user_id foreign (with_object lib o f w r)
  with_object-Keeps f m none w k g ours e = tt
  with_object-Keeps f m (some x) w k g ours e =
      k x w g (rw ((==_iff x.memory_id m).0 (find_first-some (has_id m) w.objects x e).0) ours)
