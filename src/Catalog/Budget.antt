-- ===== src/Catalog/Budget.antt =====
-- The bounds that a caller keeps who asks for the reason to stop before each call.
use globuy.Prelude.{
  ℕ, suc, ◌+◌, ◌≤◌, ◌<◌, ◌≡◌, refl, ap, ◌∙◌, if◌then◌else◌, inl, inr, Bool-cases, Bool, true, false,
  none, some, all, arith,
}
use globuy.Catalog.Stop.{
  CatalogStopPolicy, Observation, total, observe, reason, has_started, is_covered, target_reached,
  minimum_at_deadline,
}

-- The states that a caller reaches who observes a call only while there is no reason to stop.
-- The first number is that of the calls, the second that of the calls that succeeded.
pub data Steps (start : CatalogStopPolicy) : ℕ → ℕ → CatalogStopPolicy → Type 0 where
  ready : Steps start 0 0 start
  step :
      {n m : ℕ} {s s' : CatalogStopPolicy} (o : Observation) (soft : Bool)
      → Steps start n m s
      → reason soft false s ≡ none
      → observe o s ≡ some s'
      → Steps start (suc n) (m + (if o.success then 1 else 0)) s'

-- What one observation changes.
abbrev Books : Observation → CatalogStopPolicy → CatalogStopPolicy → Type 0
Books o s s' =
    (s'.attempts ≡ s.attempts + 1)
    × (s'.success_calls ≡ s.success_calls + (if o.success then 1 else 0))
    × (s'.max_attempts ≡ s.max_attempts)
    × (s'.max_success_calls ≡ s.max_success_calls)

observe-Books : (o : Observation) (s s' : CatalogStopPolicy) → observe o s ≡ some s' → Books o s s'
unfolding observe
observe-Books o s s' h = ground arith

go_on :
    (soft : Bool) (s : CatalogStopPolicy)
    → reason soft false s ≡ none
    → (s.attempts < s.max_attempts)
      × (s.success_calls < s.max_success_calls)
      × (total s < s.hard_cap_total)
unfolding reason
go_on soft s h = ground arith

Steps-Books :
    {start s : CatalogStopPolicy} {n m : ℕ}
    → start.attempts ≡ 0
    → start.success_calls ≡ 0
    → Steps start n m s
    → (s.attempts ≡ n)
      × (n ≤ start.max_attempts)
      × (s.success_calls ≡ m)
      × (m ≤ start.max_success_calls)
      × (s.max_attempts ≡ start.max_attempts)
      × (s.max_success_calls ≡ start.max_success_calls)
Steps-Books h k ready = (h, omega arith, k, omega arith, refl, refl)
Steps-Books h k (step {s = s} {s' = s'} o soft before none_yet seen) =
    let (attempts, few, calls, few_calls, same_attempts, same_calls) = Steps-Books h k before in
    let (more, more_calls, kept_attempts, kept_calls) = observe-Books o s s' seen in
    let (may, may_call, below) = go_on soft s none_yet in
    (
      omega (arith, attempts, more),
      omega (arith, attempts, may, same_attempts),
      more_calls ∙ ap (λ k. k + (if o.success then 1 else 0)) calls,
      elim (Bool-cases o.success) [
        | inl good ↦ rw good (omega (arith, calls, may_call, same_calls))
        | inr bad ↦ rw bad (omega (arith, few_calls))
      ],
      kept_attempts ∙ same_attempts,
      kept_calls ∙ same_calls,
    )

-- A caller who starts without calls, and observes a further one only while there is no reason to
-- stop, makes at most `max_attempts` calls, of which at most `max_success_calls` are observed as
-- successful.
pub within_budget :
    {start s : CatalogStopPolicy} {n m : ℕ}
    → start.attempts ≡ 0
    → start.success_calls ≡ 0
    → Steps start n m s
    → (n ≤ start.max_attempts) × (m ≤ start.max_success_calls)
within_budget h k steps = let known = Steps-Books h k steps in (known.1, known.3)

-- What the two good reasons promise. The target is reported only with at least `target_total`
-- offers, below the cap, and with every platform asked or exhausted; the minimum only at the soft
-- deadline, with at least `minimum_total` offers and every platform exhausted or with its minimum.
reason_keeps_promise :
    (soft hard : Bool) (s : CatalogStopPolicy)
    → (reason soft hard s ≡ some target_reached
        → (s.target_total ≤ total s)
          × (total s < s.hard_cap_total)
          × (all (has_started s) s.rows ≡ true))
      × (reason soft hard s ≡ some minimum_at_deadline
          → (soft ≡ true) × (s.minimum_total ≤ total s) × (all (is_covered s) s.rows ≡ true))
unfolding reason
reason_keeps_promise soft hard s = (λ h. ground arith, λ h. ground arith)
