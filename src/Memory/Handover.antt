-- ===== src/Memory/Handover.antt =====
-- What MemoryManager hands over to apply_actions: a batch that passes its two tests of the targets.
use globuy.Prelude.{
  ℕ, zero, suc, ◌≡◌, refl, true, false, ◌&&◌, not, Option, none, some, List, [], ◌∷◌, ◌++◌, ◌==◌,
  any, all, inl, inr, arith, Bool-cases, ==_iff, ==-refl,
}
use globuy.Sessions.Schema.{Text}
use globuy.Memory.Entries.{
  MemoryEvent, MemoryAction, adds, updates, deletes, keeps, targets, target_of, has_repeats,
}
use globuy.Memory.Manager.{
  ExtractedMemory, ProposedAction, Found, ManagerError, Managed, Policy, managed, rejected,
  by_service, get_elem?, to_action, needs_text, allowed, check_text, check_choice, chosen, validate,
}

-- The targets of a batch are distinct, outside `seen` and among those retrieved.
abbrev pub WellTargeted : List ℕ → List Found → List ℕ → Type 0
WellTargeted seen existing ms =
    (has_repeats ms ≡ false)
    × (all (λ m. not (any (λ n. n == m) seen) && any (λ y. y.memory_id == m) existing) ms ≡ true)

-- An error of the manager itself.
abbrev pub IsManagers : ManagerError → Type 0
IsManagers (by_service e) = ⊥
IsManagers _ = Unit {0}

abbrev pub Validated : List ℕ → List Found → Managed (List MemoryAction) → Type 0
Validated seen existing (rejected e) = IsManagers e
Validated seen existing (managed actions) = WellTargeted seen existing (targets actions)

target_of-none :
    (event : MemoryEvent) (t : Text) (keywords : List Text)
    → target_of (to_action event t none keywords) ≡ []
target_of-none adds t keywords = refl
target_of-none updates t keywords = refl
target_of-none deletes t keywords = refl
target_of-none keeps t keywords = refl

chosen_found :
    (existing : List Found) (i : ℕ) (y : Found)
    → get_elem? existing i ≡ some y
    → any (λ z. z.memory_id == y.memory_id) existing ≡ true
chosen_found [] i y h = cc
chosen_found (x ∷ xs) zero y h = ground (arith, ==-refl y.memory_id)
chosen_found (x ∷ xs) (suc i) y h = ground (arith, chosen_found xs i y)

-- What is outside a longer list of targets is outside the shorter, and is not the new one.
not_seen :
    (m : ℕ) (seen : List ℕ) (existing : List Found) (ms : List ℕ)
    → all (λ n. not (any (λ k. k == n) (m ∷ seen)) && any (λ y. y.memory_id == n) existing) ms
      ≡ true
    → (any (λ n. n == m) ms ≡ false)
      × (all (λ n. not (any (λ k. k == n) seen) && any (λ y. y.memory_id == n) existing) ms ≡ true)
not_seen m seen existing [] h = (refl, refl)
not_seen m seen existing (n ∷ ms) h =
    ground (arith, not_seen m seen existing ms, (==_iff n m).0, ==-refl m)

WellTargeted-target :
    (event : MemoryEvent) (t : Text) (m : ℕ) (keywords : List Text) (seen : List ℕ)
    (existing : List Found) (ms : List ℕ)
    → any (λ n. n == m) seen ≡ false
    → any (λ y. y.memory_id == m) existing ≡ true
    → WellTargeted (m ∷ seen) existing ms
    → WellTargeted seen existing (target_of (to_action event t (some m) keywords) ++ ms)
WellTargeted-target adds t m keywords seen existing ms new there (distinct, w) =
    (distinct, (not_seen m seen existing ms w).1)
WellTargeted-target updates t m keywords seen existing ms new there (distinct, w) =
    ground (arith, not_seen m seen existing ms w)
WellTargeted-target deletes t m keywords seen existing ms new there (distinct, w) =
    ground (arith, not_seen m seen existing ms w)
WellTargeted-target keeps t m keywords seen existing ms new there (distinct, w) =
    ground (arith, not_seen m seen existing ms w)

module _ (policy : Policy) (facts : List ExtractedMemory) (existing : List Found) where
  check_text-none :
      (a : ProposedAction) (seen : List ℕ) (r : Managed (List MemoryAction))
      → Validated seen existing r
      → Validated seen existing (check_text policy facts a none r)
  check_text-none a seen (rejected e) h =
      elim (Bool-cases (needs_text a.event && not (allowed policy a.memory))) [
        | inl unsafe ↦ rw unsafe tt
        | inr safe ↦ rw safe h
      ]
  check_text-none a seen (managed actions) h =
      elim (Bool-cases (needs_text a.event && not (allowed policy a.memory))) [
        | inl unsafe ↦ rw unsafe tt
        | inr safe ↦ rw (safe, target_of-none a.event) h
      ]

  check_text-some :
      (a : ProposedAction) (m : ℕ) (seen : List ℕ) (r : Managed (List MemoryAction))
      → any (λ n. n == m) seen ≡ false
      → any (λ y. y.memory_id == m) existing ≡ true
      → Validated (m ∷ seen) existing r
      → Validated seen existing (check_text policy facts a (some m) r)
  check_text-some a m seen (rejected e) new there h =
      elim (Bool-cases (needs_text a.event && not (allowed policy a.memory))) [
        | inl unsafe ↦ rw unsafe tt
        | inr safe ↦ rw safe h
      ]
  check_text-some a m seen (managed actions) new there h =
      elim (Bool-cases (needs_text a.event && not (allowed policy a.memory))) [
        | inl unsafe ↦ rw unsafe tt
        | inr safe ↦ rw safe (
            WellTargeted-target a.event (policy.strip a.memory) m _ seen existing (targets actions)
              new there h)
      ]

  check_choice-Validated :
      (a : ProposedAction) (seen : List ℕ) (o : Option ℕ) (r : Option Found)
      (next : List ℕ → Managed (List MemoryAction))
      → ((ms : List ℕ) → Validated ms existing (next ms))
      → chosen policy existing o ≡ r
      → Validated seen existing (check_choice policy facts a seen o r next)
  check_choice-Validated a seen none r next h e = check_text-none a seen (next seen) (h seen)
  check_choice-Validated a seen (some i) none next h e = tt
  check_choice-Validated a seen (some i) (some y) next h e =
      elim (Bool-cases (any (λ m. m == y.memory_id) seen)) [
        | inl repeated ↦ rw repeated tt
        | inr new ↦ rw new (
            check_text-some a y.memory_id seen (next (y.memory_id ∷ seen)) new
              (chosen_found existing i y e) (h (y.memory_id ∷ seen)))
      ]

  pub validate-Validated :
      (actions : List ProposedAction) (seen : List ℕ)
      → Validated seen existing (validate policy facts existing seen actions)
  unfolding validate
  validate-Validated [] seen = (refl, refl)
  validate-Validated (a ∷ rest) seen =
      check_choice-Validated a seen a.id (chosen policy existing a.id)
        (λ ms. validate policy facts existing ms rest) (validate-Validated rest) refl
