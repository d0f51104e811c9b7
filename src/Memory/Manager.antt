-- ===== src/Memory/Manager.antt =====
-- class MemoryManager of app/memory/manager.py: how the facts and the decisions of a model become a
-- batch for apply_actions. The two calls of the model, the search and the patterns of `_allowed` are
-- parameters; the validator of a decision's shape runs on what the second call returns.
use globuy.Prelude.{
  ℕ, zero, suc, Bool, true, false, ◌&&◌, ◌||◌, not, Option, none, some, List, [], ◌∷◌, ◌++◌, ◌==◌,
  leb, length, any, all, find_first, select_where, map, if◌then◌else◌,
}
use globuy.Sessions.Schema.{Text}
use globuy.Memory.Entries.{
  MemoryDb, MemoryEvent, MemoryError, MemoryResult, TextLibraries, MemoryAction, Change, Origin,
  adds, updates, deletes, keeps, done, refused, add_memory, update_memory, delete_memory,
  confirm_memory, is_empty, has_repeats,
}
use globuy.Memory.Service.{apply_actions}

pub record ExtractedMemory : Type 0 where
  pub fact_index : ℕ
  pub memory : Text
  pub keywords : List Text

pub record ProposedAction : Type 0 where
  pub event : MemoryEvent
  pub fact_index : ℕ
  pub memory : Text
  pub id : Option ℕ

pub record Found : Type 0 where
  pub memory_id : ℕ
  pub memory : Text

pub data ManagerError : Type 0 where
  repeated_fact malformed_decision unmatched_facts unknown_choice repeated_choice : ManagerError
  unsafe_text : ManagerError
  by_service : MemoryError → ManagerError

pub data Managed (A : Type 0) : Type 0 where
  managed : A → Managed A
  rejected : ManagerError → Managed A

-- `str.strip`, and the four patterns behind `_allowed`.
pub record Policy : Type 0 where
  pub strip : Text → Text
  pub matches_pattern : Text → Bool

abbrev pub get_elem? {ℓ} : {A : Type ℓ} → List A → ℕ → Option A
get_elem? [] i = none
get_elem? (x ∷ xs) zero = some x
get_elem? (x ∷ xs) (suc i) = get_elem? xs i

-- `dict.setdefault`
abbrev pub set_default : Found → List Found → List Found
set_default x acc = if any (λ y. y.memory_id == x.memory_id) acc then acc else acc ++ x ∷ []

-- The loop over the matches of a fact stops at 20.
abbrev pub add_matches : List Found → List Found → List Found
add_matches acc [] = acc
add_matches acc (x ∷ xs) =
    let next = set_default x acc in
    let rest = add_matches next xs in if leb 20 (length next) then next else rest

abbrev pub is_choice : Option ℕ → Bool
is_choice none = false
is_choice (some i) = true

-- set(xs) == set(ys)
abbrev pub same_set : List ℕ → List ℕ → Bool
same_set xs ys = all (λ x. any (λ y. y == x) ys) xs && all (λ y. any (λ x. x == y) xs) ys

abbrev pub then_managed : {A B : Type 0} → (A → Managed B) → Managed A → Managed B
then_managed f (rejected e) = rejected e
then_managed f (managed a) = f a

abbrev pub map_managed : {A B : Type 0} → (A → B) → Managed A → Managed B
map_managed f (rejected e) = rejected e
map_managed f (managed a) = managed (f a)

abbrev pub to_action : MemoryEvent → Text → Option ℕ → List Text → MemoryAction
to_action adds memory m keywords = add_memory memory keywords
to_action updates memory m keywords = update_memory m memory keywords
to_action deletes memory m keywords = delete_memory m
to_action keeps memory m keywords = confirm_memory m

abbrev pub needs_text : MemoryEvent → Bool
needs_text adds = true
needs_text updates = true
needs_text deletes = false
needs_text keeps = false

module _ (policy : Policy) where
  unfoldable pub allowed : Text → Bool
  allowed value = not (is_empty (policy.strip value)) && not (policy.matches_pattern value)

  abbrev pub needs_target : MemoryEvent → Bool
  needs_target adds = false
  needs_target updates = true
  needs_target deletes = true
  needs_target keeps = false

  abbrev pub is_add : MemoryEvent → Bool
  is_add adds = true
  is_add _ = false

  unfoldable pub validate_shape : ProposedAction → Bool
  validate_shape a =
      not (needs_target a.event && not (is_choice a.id))
      && not (needs_text a.event && is_empty (policy.strip a.memory))
      && not (is_add a.event && is_choice a.id)

  -- The keywords of the fact that a decision is about.
  unfoldable pub kept_keywords : ExtractedMemory → List Text
  unfolding allowed
  kept_keywords fact =
      map policy.strip
        (select_where (λ k. leb (length (policy.strip k)) 64 && allowed k) fact.keywords)

  abbrev pub keywords_of : Option ExtractedMemory → List Text
  keywords_of none = []
  keywords_of (some fact) = kept_keywords fact

  abbrev pub validated : List ExtractedMemory → ProposedAction → Option ℕ → MemoryAction
  validated facts a m =
      to_action a.event (policy.strip a.memory) m
        (keywords_of (find_first (λ fact. fact.fact_index == a.fact_index) facts))

  -- The safety of the text, and then the rest of the loop.
  abbrev pub check_text :
      List ExtractedMemory
      → ProposedAction
      → Option ℕ
      → Managed (List MemoryAction)
      → Managed (List MemoryAction)
  check_text facts a m rest =
      if needs_text a.event && not (allowed a.memory)
      then rejected unsafe_text
      else map_managed (◌∷◌ (validated facts a m)) rest

  -- One turn of the loop, whose set of targets is `seen`.
  abbrev pub check_choice :
      List ExtractedMemory
      → ProposedAction
      → List ℕ
      → Option ℕ
      → Option Found
      → (List ℕ → Managed (List MemoryAction))
      → Managed (List MemoryAction)
  check_choice facts a seen none found next = check_text facts a none (next seen)
  check_choice facts a seen (some i) none next = rejected unknown_choice
  check_choice facts a seen (some i) (some y) next =
      if any (λ m. m == y.memory_id) seen
      then rejected repeated_choice
      else check_text facts a (some y.memory_id) (next (y.memory_id ∷ seen))

  abbrev pub chosen : List Found → Option ℕ → Option Found
  chosen existing none = none
  chosen existing (some i) = get_elem? existing i

  unfoldable pub validate :
      List ExtractedMemory → List Found → List ℕ → List ProposedAction → Managed (List MemoryAction)
  unfolding allowed kept_keywords
  validate facts existing seen [] = managed []
  validate facts existing seen (a ∷ rest) =
      check_choice facts a seen a.id (chosen existing a.id)
        (λ targets. validate facts existing targets rest)

  module _ (search : Text → List Found)
      (decide : List ExtractedMemory → List Found → List ProposedAction) where
    unfoldable pub retrieve : List Found → List ExtractedMemory → List Found
    retrieve acc [] = acc
    retrieve acc (fact ∷ facts) =
        let next = add_matches acc (search fact.memory) in
        let rest = retrieve next facts in if leb 20 (length next) then next else rest

    unfoldable pub check_decisions :
        List ExtractedMemory → List Found → List ProposedAction → Managed (List MemoryAction)
    unfolding validate_shape validate
    check_decisions facts existing actions =
        let indices = map ProposedAction.fact_index actions in
        if not (all validate_shape actions)
        then rejected malformed_decision
        else if has_repeats indices || not (same_set indices (map ExtractedMemory.fact_index facts))
        then rejected unmatched_facts
        else validate facts existing [] actions

    -- The facts are those that are allowed; `none` is the early return without any.
    unfoldable pub plan : List ExtractedMemory → Option (Managed (List MemoryAction))
    unfolding retrieve check_decisions
    plan [] = none
    plan (fact ∷ facts) =
        if has_repeats (map ExtractedMemory.fact_index (fact ∷ facts))
        then some (rejected repeated_fact)
        else some (
            let existing = retrieve [] (fact ∷ facts) in
            check_decisions (fact ∷ facts) existing (decide (fact ∷ facts) existing))

    abbrev pub from_service :
        MemoryResult (List Change) × MemoryDb → Managed (List Change) × MemoryDb
    from_service (done changed, db) = (managed changed, db)
    from_service (refused e, db) = (rejected (by_service e), db)

    abbrev pub hand_over :
        TextLibraries
        → Origin
        → (ℕ → ℕ)
        → Option (Managed (List MemoryAction))
        → MemoryDb
        → Managed (List Change) × MemoryDb
    hand_over lib o fresh none db = (managed [], db)
    hand_over lib o fresh (some (rejected e)) db = (rejected e, db)
    hand_over lib o fresh (some (managed actions)) db =
        from_service (apply_actions lib o fresh actions db)

    unfoldable pub process :
        TextLibraries
        → Origin
        → (ℕ → ℕ)
        → List ExtractedMemory
        → MemoryDb
        → Managed (List Change) × MemoryDb
    unfolding plan allowed apply_actions
    process lib o fresh extracted db =
        hand_over lib o fresh (plan (select_where (λ fact. allowed fact.memory) extracted)) db
