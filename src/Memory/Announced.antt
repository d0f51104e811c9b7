-- ===== src/Memory/Announced.antt =====
-- What a batch of memory actions announces: the outbox has the current version of every memory.
use globuy.Prelude.{
  all-impl, all-update, all-update_found, all-append, any-append_left, any-append_last,
  same_text_refl, ℕ, ◌≤◌, ◌≡◌, refl, Bool, true, ◌&&◌, ◌||◌, Option, none, some, List, [], ◌∷◌,
  ◌++◌, ◌==◌, any, all, find_first, count_if, delete_where, arith, Bool-cases, Option-cases,
  same_text, inl, inr, ==-refl, ==_iff,
}
use globuy.Sessions.Schema.{Text}
use globuy.Memory.Entries.{
  MemoryEntry, MemoryDb, Upsert, MemoryResult, TextLibraries, Change, Origin, done, refused, has_id,
  has_content, is_empty, memory_hash,
}
use globuy.Memory.Actions.{
  UnitOfWork, Done, flush, remaining, is_removed, confirmed, keep_object, object_of, insert_or_keep,
  add_flushed, add_unless, new_entry, revised, revise_object, update_object, retired, upsert,
  is_taken,
}
use globuy.Memory.Guard.{flush-some}
use globuy.Memory.Service.{add, delete_object}

-- An event that carries the memory as it stands.
abbrev pub announces : MemoryEntry → Upsert → Bool
announces x e =
    e.aggregate_id == x.memory_id
    && e.aggregate_version == x.version
    && same_text e.payload.memory x.memory

-- `base` are the texts that need no event.
module _ (base : ℕ → Text → Bool) where
  abbrev pub is_announced : List Upsert → MemoryEntry → Bool
  is_announced outbox x = base x.memory_id x.memory || any (announces x) outbox

  abbrev pub Announced : MemoryDb → Type 0
  Announced db = all (is_announced db.outbox) db.entries ≡ true

  abbrev pub is_settled : List ℕ → List Upsert → MemoryEntry → Bool
  is_settled removed outbox x = is_removed removed x || is_announced outbox x

  abbrev pub Settled : UnitOfWork → Type 0
  Settled w = all (is_settled w.removed w.outbox) w.objects ≡ true

  pub upsert-announced :
      (now : ℕ) (outbox : List Upsert) (x : MemoryEntry)
      → is_announced (outbox ++ upsert now x ∷ []) x ≡ true
  upsert-announced now outbox x =
      let new : any (announces x) (outbox ++ upsert now x ∷ []) ≡ true =
        any-append_last (announces x) outbox (upsert now x)
          (ground (arith, ==-refl x.memory_id, ==-refl x.version, same_text_refl x.memory)) in
      ground (arith, new)

  pub still_announced :
      (now : ℕ) (outbox : List Upsert) (y x : MemoryEntry)
      → is_announced outbox x ≡ true
      → is_announced (outbox ++ upsert now y ∷ []) x ≡ true
  still_announced now outbox y x h =
      ground (arith, any-append_left (announces x) outbox (upsert now y ∷ []))

  still_settled :
      (now : ℕ) (removed : List ℕ) (outbox : List Upsert) (y x : MemoryEntry)
      → is_settled removed outbox x ≡ true
      → is_settled removed (outbox ++ upsert now y ∷ []) x ≡ true
  still_settled now removed outbox y x h =
      ground (arith, any-append_left (announces x) outbox (upsert now y ∷ []))

  pub remaining-announced :
      (removed : List ℕ) (outbox : List Upsert) (xs : List MemoryEntry)
      → all (is_settled removed outbox) xs ≡ true
      → all (is_announced outbox) (delete_where (is_removed removed) xs) ≡ true
  remaining-announced removed outbox [] h = refl
  remaining-announced removed outbox (x ∷ xs) h =
      ground (arith, remaining-announced removed outbox xs)

  pub flush-Settled : (w w' : UnitOfWork) → Settled w → flush w ≡ some w' → Settled w'
  flush-Settled w w' s e =
      let (stored, objects, removed, outbox, _) = flush-some w w' e in
      rw (objects, removed, outbox)
        (all-impl (is_announced w.outbox) _ (remaining w) (λ x k. k)
          (remaining-announced w.removed w.outbox w.objects s))

  abbrev pub SettledDone : Done → Type 0
  SettledDone (refused e) = Unit {0}
  SettledDone (done (c, w)) = Settled w

  abbrev pub SettledRun : MemoryResult (List Change × UnitOfWork) → Type 0
  SettledRun (refused e) = Unit {0}
  SettledRun (done (cs, w)) = Settled w

  module _ (lib : TextLibraries) (o : Origin) where
    pub keep_object-Settled :
        (x : MemoryEntry) (w : UnitOfWork) → Settled w → SettledDone (keep_object o.now x w)
    unfolding keep_object
    keep_object-Settled x w s =
        all-update (is_settled w.removed w.outbox) (is_settled w.removed w.outbox)
          (has_id x.memory_id) (confirmed o.now) w.objects (λ y k. k) (λ y _ k. k) s

    insert_or_keep-Settled :
        (x : MemoryEntry) (r : Option MemoryEntry) (w : UnitOfWork)
        → Settled w
        → SettledDone (insert_or_keep lib o x r w)
    unfolding insert_or_keep
    insert_or_keep-Settled x (some d) w s = keep_object-Settled (object_of d w) w s
    insert_or_keep-Settled x none w s = elim (Bool-cases (any (has_id x.memory_id) w.stored)) [
      | inl used ↦ rw used tt
      | inr free ↦ rw free (
          all-append _ w.objects (x ∷ [])
            (all-impl _ _ w.objects (still_settled o.now w.removed w.outbox x) s)
            (ground (arith, upsert-announced o.now w.outbox x)))
    ]

    add_flushed-Settled :
        (x : MemoryEntry) (r : Option UnitOfWork) (w : UnitOfWork)
        → Settled w
        → flush w ≡ r
        → SettledDone (add_flushed lib o x r)
    unfolding add_flushed
    add_flushed-Settled x none w s e = tt
    add_flushed-Settled x (some w') w s e =
        insert_or_keep-Settled x (find_first (has_content o.user_id x.content_hash) w'.stored) w'
          (flush-Settled w w' s e)

    pub add-Settled :
        (id : ℕ) (value : Text) (keywords : List Text) (w : UnitOfWork)
        → Settled w
        → SettledDone (add lib o id value keywords w)
    unfolding add add_unless
    add-Settled id value keywords w s = elim (Bool-cases (is_empty value)) [
      | inl blank ↦ rw blank tt
      | inr text ↦
          rw text
            (elim (Option-cases
              (find_first (has_content o.user_id (memory_hash lib value)) w.stored)) [
                | inl new ↦
                    rw new
                      (add_flushed-Settled (new_entry lib o id value keywords) (flush w) w s refl)
                | inr (d, found) ↦ rw found (keep_object-Settled (object_of d w) w s)
              ])
    ]

    -- The object that is found is the only one with its identifier.
    revise_object-Settled :
        (value : Text) (keywords : List Text) (x : MemoryEntry) (w : UnitOfWork)
        → Settled w
        → find_first (has_id x.memory_id) w.objects ≡ some x
        → count_if (has_id x.memory_id) w.objects ≤ 1
        → Settled (revise_object lib o value keywords x w)
    unfolding revise_object
    revise_object-Settled value keywords x w s found one =
        let y = revised lib o value keywords x in
        all-update_found _ _ (has_id x.memory_id) (revised lib o value keywords) w.objects x
          (still_settled o.now w.removed w.outbox y) found one
          (ground (arith, upsert-announced o.now w.outbox y)) s

    pub update_object-Settled :
        (value : Text) (keywords : List Text) (x : MemoryEntry) (w : UnitOfWork)
        → Settled w
        → find_first (has_id x.memory_id) w.objects ≡ some x
        → count_if (has_id x.memory_id) w.objects ≤ 1
        → SettledDone (update_object lib o value keywords x w)
    unfolding update_object
    update_object-Settled value keywords x w s found one = elim (Bool-cases (is_empty value)) [
      | inl blank ↦ rw blank tt
      | inr text ↦ rw text (elim (Bool-cases (same_text value x.memory)) [
        | inl same ↦ rw same (keep_object-Settled x w s)
        | inr new ↦ rw new (elim (Bool-cases (is_taken lib o value x w)) [
          | inl taken ↦ rw taken tt
          | inr free ↦ rw free (revise_object-Settled value keywords x w s found one)
        ])
      ])
    ]

    pub delete_object-Settled :
        (x : MemoryEntry) (w : UnitOfWork) → Settled w → SettledDone (delete_object lib o x w)
    unfolding delete_object
    delete_object-Settled x w s =
        all-update (is_settled w.removed w.outbox) (is_settled (x.memory_id ∷ w.removed) w.outbox)
          (has_id x.memory_id) (retired lib o) w.objects (λ y k. ground arith)
          (λ y k _. ground (arith, (==_iff y.memory_id x.memory_id).0, ==-refl x.memory_id)) s
