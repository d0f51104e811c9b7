-- ===== src/Memory/Obeyed.antt =====
-- With what errors a batch of MemoryManager can be refused.
use globuy.Prelude.{
  ℕ, ◌≡◌, refl, subst, true, false, ◌&&◌, ◌||◌, not, some, List, [], ◌∷◌, ◌==◌, leb, length, any,
  all, select_where, map, inl, inr, arith, Bool-cases, all-append, ==_iff,
}
use globuy.Sessions.Schema.{Text}
use globuy.Memory.Entries.{
  MemoryDb, MemoryError, MemoryResult, TextLibraries, MemoryAction, Change, Origin, done, refused,
  is_owned, targets, has_repeats, all_owned,
}
use globuy.Memory.Service.{apply_actions}
use globuy.Memory.Manager.{
  repeated_fact, malformed_decision, unmatched_facts, unknown_choice, repeated_choice, unsafe_text,
  ExtractedMemory, ProposedAction, Found, ManagerError, Managed, Policy, managed, rejected,
  by_service, set_default, add_matches, allowed, chosen, validate_shape, retrieve, check_decisions,
  plan, from_service, hand_over, process, same_set,
}
use globuy.Memory.Handover.{IsManagers, Validated, validate-Validated}
use globuy.Memory.Refusals.{is_target_error, PastTestsAll, apply_actions-PastTests}

-- The search finds memories of the user alone.
abbrev pub Owned : ℕ → MemoryDb → List Found → Type 0
Owned u db xs = all (λ y. any (is_owned u y.memory_id) db.entries) xs ≡ true

Owned-set_default :
    (u : ℕ) (db : MemoryDb) (x : Found) (acc : List Found)
    → Owned u db acc
    → any (is_owned u x.memory_id) db.entries ≡ true
    → Owned u db (set_default x acc)
Owned-set_default u db x acc h k = elim (Bool-cases (any (λ y. y.memory_id == x.memory_id) acc)) [
  | inl there ↦ rw there h
  | inr new ↦
      rw new (all-append (λ y. any (is_owned u y.memory_id) db.entries) acc (x ∷ []) h (rw k refl))
]

Owned-of_any :
    (u : ℕ) (db : MemoryDb) (xs : List Found) (m : ℕ)
    → Owned u db xs
    → any (λ y. y.memory_id == m) xs ≡ true
    → any (is_owned u m) db.entries ≡ true
Owned-of_any u db [] m h k = cc
Owned-of_any u db (x ∷ xs) m h k = elim (Bool-cases (x.memory_id == m)) [
  | inl here ↦
      subst (λ n. any (is_owned u n) db.entries ≡ true) ((==_iff x.memory_id m).0 here)
        (ground arith)
  | inr there ↦ Owned-of_any u db xs m (ground arith) (ground arith)
]

module _ (u : ℕ) (db : MemoryDb) where
  Owned-add_matches :
      (acc xs : List Found) → Owned u db acc → Owned u db xs → Owned u db (add_matches acc xs)
  Owned-add_matches acc [] h k = h
  Owned-add_matches acc (x ∷ xs) h k =
      let next = set_default x acc in
      let fine : Owned u db next = Owned-set_default u db x acc h (ground arith) in
      elim (Bool-cases (leb 20 (length next))) [
        | inl full ↦ rw full fine
        | inr room ↦ rw room (Owned-add_matches next xs fine (ground arith))
      ]

  all_owned_of :
      (seen : List ℕ) (existing : List Found) (ms : List ℕ)
      → Owned u db existing
      → all (λ m. not (any (λ n. n == m) seen) && any (λ y. y.memory_id == m) existing) ms ≡ true
      → all_owned u db ms ≡ true
  all_owned_of seen existing [] h k = refl
  all_owned_of seen existing (m ∷ ms) h k =
      ground (arith, Owned-of_any u db existing m, all_owned_of seen existing ms h)

  Owned-retrieve :
      (policy : Policy) (search : Text → List Found)
      (decide : List ExtractedMemory → List Found → List ProposedAction)
      → ((t : Text) → Owned u db (search t))
      → (acc : List Found) (facts : List ExtractedMemory) → Owned u db acc
      → Owned u db (retrieve policy search decide acc facts)
  unfolding retrieve
  Owned-retrieve policy search decide k acc [] h = h
  Owned-retrieve policy search decide k acc (fact ∷ facts) h =
      let next = add_matches acc (search fact.memory) in
      let fine : Owned u db next = Owned-add_matches acc (search fact.memory) h (k fact.memory) in
      elim (Bool-cases (leb 20 (length next))) [
        | inl full ↦ rw full fine
        | inr room ↦ rw room (Owned-retrieve policy search decide k next facts fine)
      ]

-- A refusal, if it is one by the service, is not one of the two tests.
abbrev PastTestsManaged : Managed (List Change) → Type 0
PastTestsManaged (managed cs) = Unit {0}
PastTestsManaged (rejected (by_service e)) = is_target_error e ≡ false
PastTestsManaged (rejected _) = Unit {0}

module _ (policy : Policy) (search : Text → List Found)
    (decide : List ExtractedMemory → List Found → List ProposedAction) (lib : TextLibraries)
    (o : Origin) (fresh : ℕ → ℕ) (db : MemoryDb)
    (k : (t : Text) → Owned o.user_id db (search t)) where
  managers_error : (e : ManagerError) → IsManagers e → PastTestsManaged (rejected e)
  managers_error (by_service e) h = absurd h
  managers_error repeated_fact h = tt
  managers_error malformed_decision h = tt
  managers_error unmatched_facts h = tt
  managers_error unknown_choice h = tt
  managers_error repeated_choice h = tt
  managers_error unsafe_text h = tt

  past_service :
      (r : MemoryResult (List Change) × MemoryDb)
      → PastTestsAll r.0
      → PastTestsManaged (from_service policy search decide r).0
  past_service (refused e, after) h = h
  past_service (done cs, after) h = tt

  handed_over :
      (existing : List Found) (r : Managed (List MemoryAction))
      → Owned o.user_id db existing
      → Validated [] existing r
      → PastTestsManaged (hand_over policy search decide lib o fresh (some r) db).0
  handed_over existing (rejected e) h v = managers_error e v
  handed_over existing (managed actions) h (distinct, chosen) =
      past_service (apply_actions lib o fresh actions db) (
        apply_actions-PastTests lib o fresh actions db distinct
          (all_owned_of o.user_id db [] existing (targets actions) h chosen))

  check_decisions-Validated :
      (facts : List ExtractedMemory) (existing : List Found) (actions : List ProposedAction)
      → Validated [] existing (check_decisions policy search decide facts existing actions)
  unfolding check_decisions
  check_decisions-Validated facts existing actions =
      let indices = map ProposedAction.fact_index actions in
      elim (Bool-cases (not (all (validate_shape policy) actions))) [
        | inl malformed ↦ rw malformed tt
        | inr formed ↦
            rw formed
              (elim (Bool-cases (
                has_repeats indices
                || not (same_set indices (map ExtractedMemory.fact_index facts)))) [
                  | inl unmatched ↦ rw unmatched tt
                  | inr matched ↦ rw matched (validate-Validated policy facts existing actions [])
                ])
      ]

  plan-PastTests :
      (facts : List ExtractedMemory)
      → PastTestsManaged
          (hand_over policy search decide lib o fresh (plan policy search decide facts) db).0
  unfolding plan
  plan-PastTests [] = tt
  plan-PastTests (fact ∷ facts) =
      elim (Bool-cases (has_repeats (map ExtractedMemory.fact_index (fact ∷ facts)))) [
        | inl repeated ↦ rw repeated tt
        | inr distinct ↦
            let existing = retrieve policy search decide [] (fact ∷ facts) in
            rw distinct (
              handed_over existing
                (check_decisions policy search decide (fact ∷ facts) existing
                  (decide (fact ∷ facts) existing))
                (Owned-retrieve o.user_id db policy search decide k [] (fact ∷ facts) refl)
                (check_decisions-Validated (fact ∷ facts) existing
                  (decide (fact ∷ facts) existing)))
      ]

  -- Whatever facts and decisions the model returns, a batch that MemoryManager hands over is not refused
  -- for a repeated, an unknown or a foreign target, as long as the search finds memories of the user
  -- that are still there.
  pub process_targets :
      (extracted : List ExtractedMemory) (e : MemoryError)
      → (process policy search decide lib o fresh extracted db).0 ≡ rejected (by_service e)
      → is_target_error e ≡ false
  unfolding process
  process_targets extracted e h =
      subst PastTestsManaged h
        (plan-PastTests (select_where (λ fact. allowed policy fact.memory) extracted))
