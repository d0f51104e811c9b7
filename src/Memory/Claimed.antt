-- ===== src/Memory/Claimed.antt =====
-- The claims of a round of the outbox worker: every event that waits is held under the token of one.
use globuy.Prelude.{
  ℕ, zero, suc, ◌≤◌, ◌≡◌, refl, sym, Bool, true, false, ◌&&◌, ◌||◌, not, List, [], ◌∷◌, ◌++◌, ◌==◌,
  any, all, take, length, select_where, update_where, is_some, arith, inl, inr, Bool-cases,
  all-impl, all-and, subst, if◌then◌else◌, ==-refl, ==_iff,
}
use mathlib.Core.List.{append_assoc, append-nil}
use globuy.Memory.Outbox.{
  OutboxEvent, is_memory, is_event, Tables, OutboxConfig, is_waiting, insert_event, by_creation,
  hold_event, update_events, claim_each, claim_events,
}
use globuy.Memory.Consolidation.{holds}

-- Not an event of a memory that is still to be published.
abbrev pub is_settled : OutboxEvent → Bool
is_settled y = not (is_memory y.aggregate_type) || is_some y.published_at

abbrev pub is_claim_of : OutboxEvent → ℕ × ℕ → Bool
is_claim_of y (e, token) = y.event_id == e && holds token y.claim_token

-- One of the claims holds the event.
abbrev pub is_held_by : List (ℕ × ℕ) → OutboxEvent → Bool
is_held_by claims y = any (is_claim_of y) claims

abbrev pub is_among : List OutboxEvent → OutboxEvent → Bool
is_among xs y = any (is_event y.event_id) xs

any-append_or :
    (y : OutboxEvent) (xs ys : List (ℕ × ℕ))
    → is_held_by (xs ++ ys) y ≡ (is_held_by xs y || is_held_by ys y)
any-append_or y [] ys = refl
any-append_or y (x ∷ xs) ys = ground (arith, any-append_or y xs ys)

-- Settled, held by an earlier claim, or still to be claimed.
abbrev is_covered : List (ℕ × ℕ) → List OutboxEvent → OutboxEvent → Bool
is_covered claims xs y = is_settled y || is_held_by claims y || is_among xs y

hold-is_covered :
    (now token : ℕ) (claims : List (ℕ × ℕ)) (x : OutboxEvent) (xs : List OutboxEvent)
    (y : OutboxEvent)
    → is_event x.event_id y ≡ true
    → is_covered (claims ++ (x.event_id, token) ∷ []) xs (hold_event now token y) ≡ true
hold-is_covered now token claims x xs y here =
    ground (
      arith,
      any-append_or (hold_event now token y) claims ((x.event_id, token) ∷ []),
      ==-refl token,
    )

other-is_covered :
    (token : ℕ) (claims : List (ℕ × ℕ)) (x : OutboxEvent) (xs : List OutboxEvent) (y : OutboxEvent)
    → is_event x.event_id y ≡ false
    → is_covered claims (x ∷ xs) y ≡ true
    → is_covered (claims ++ (x.event_id, token) ∷ []) xs y ≡ true
other-is_covered token claims x xs y other h = ground (
  arith,
  any-append_or y claims ((x.event_id, token) ∷ []),
  ==_iff x.event_id y.event_id,
  ==-refl x.event_id,
)

held-is_covered :
    (now token : ℕ) (claims : List (ℕ × ℕ)) (x : OutboxEvent) (xs events : List OutboxEvent)
    → all (is_covered claims (x ∷ xs)) events ≡ true
    → all
        (is_covered (claims ++ (x.event_id, token) ∷ []) xs)
        (update_where (is_event x.event_id) (hold_event now token) events)
      ≡ true
held-is_covered now token claims x xs [] h = refl
held-is_covered now token claims x xs (y ∷ events) h = elim (Bool-cases (is_event x.event_id y)) [
  | inl here ↦ rw here (
      ground (
        arith,
        hold-is_covered now token claims x xs y here,
        held-is_covered now token claims x xs events,
      ))
  | inr other ↦ rw other (
      ground (
        arith,
        other-is_covered token claims x xs y other,
        held-is_covered now token claims x xs events,
      ))
]

claim_each-is_covered :
    (now token : ℕ) (claims : List (ℕ × ℕ)) (xs : List OutboxEvent) (db : Tables)
    → all (is_covered claims xs) db.events ≡ true
    → all
        (is_covered (claims ++ (claim_each now token xs db).0) [])
        (claim_each now token xs db).1.events
      ≡ true
claim_each-is_covered now token claims [] db h = rw append-nil h
claim_each-is_covered now token claims (x ∷ xs) db h =
    let held = update_events (is_event x.event_id) (hold_event now token) db in
    let rest =
      claim_each-is_covered now (suc token) (claims ++ (x.event_id, token) ∷ []) xs held
        (held-is_covered now token claims x xs db.events h) in
    let covered = rw append_assoc at rest in covered

any-insert_event :
    (p : OutboxEvent → Bool) (x : OutboxEvent) (xs : List OutboxEvent)
    → any p (insert_event x xs) ≡ (p x || any p xs)
any-insert_event p x [] = ground arith
any-insert_event p x (y ∷ xs) = ground (arith, any-insert_event p x xs)

any-by_creation :
    (p : OutboxEvent → Bool) (xs : List OutboxEvent) → any p (by_creation xs) ≡ any p xs
any-by_creation p [] = refl
any-by_creation p (x ∷ xs) =
    ground (arith, any-insert_event p x (by_creation xs), any-by_creation p xs)

length-insert_event :
    (x : OutboxEvent) (xs : List OutboxEvent) → length (insert_event x xs) ≡ suc (length xs)
length-insert_event x [] = refl
length-insert_event x (y ∷ xs) = ground (arith, length-insert_event x xs)

length-by_creation : (xs : List OutboxEvent) → length (by_creation xs) ≡ length xs
length-by_creation [] = refl
length-by_creation (x ∷ xs) =
    ground (arith, length-insert_event x (by_creation xs), length-by_creation xs)

take_all : (n : ℕ) (xs : List OutboxEvent) → length xs ≤ n → take n xs ≡ xs
take_all zero [] h = refl
take_all zero (x ∷ xs) h = absurd (omega arith)
take_all (suc n) [] h = refl
take_all (suc n) (x ∷ xs) h = ground (arith, take_all n xs)

selected-is_among :
    (q : OutboxEvent → Bool) (ys : List OutboxEvent)
    → all (λ y. not (q y) || is_among (select_where q ys) y) ys ≡ true
selected-is_among q [] = refl
selected-is_among q (y ∷ ys) = elim (Bool-cases (q y)) [
  | inl chosen ↦
      let rest =
        all-impl (λ z. not (q z) || is_among (select_where q ys) z)
          (λ z. not (q z) || is_among (y ∷ select_where q ys) z) ys (λ z h. ground arith)
          (selected-is_among q ys) in
      let whole : all (λ z. not (q z) || is_among (y ∷ select_where q ys) z) (y ∷ ys) ≡ true =
        ground (arith, ==-refl y.event_id, rest) in
      subst
        (λ b.
          all
            (λ z. not (q z) || is_among (if b then y ∷ select_where q ys else select_where q ys) z)
            (y ∷ ys)
          ≡ true)
        (sym chosen) whole
  | inr passed ↦
      let whole : all (λ z. not (q z) || is_among (select_where q ys) z) (y ∷ ys) ≡ true =
        ground (arith, selected-is_among q ys) in
      subst
        (λ b.
          all
            (λ z. not (q z) || is_among (if b then y ∷ select_where q ys else select_where q ys) z)
            (y ∷ ys)
          ≡ true)
        (sym passed) whole
]

module _ (cfg : OutboxConfig) (now token : ℕ) (db : Tables) where
  abbrev waiting : List OutboxEvent
  waiting = select_where (is_waiting cfg now) db.events

  -- Where the batch is as large as what waits, each event that is not settled is held by a claim.
  pub claimed-is_held :
      all (λ y. is_settled y || is_waiting cfg now y) db.events ≡ true
      → length waiting ≤ cfg.batch_size
      → all
          (λ y. is_settled y || is_held_by (claim_events cfg now token db).0 y)
          (claim_events cfg now token db).1.events
        ≡ true
  unfolding claim_events
  claimed-is_held ready fits =
      let chosen : take cfg.batch_size (by_creation waiting) ≡ by_creation waiting =
        take_all cfg.batch_size (by_creation waiting) (omega (arith, length-by_creation waiting)) in
      let covered : all (is_covered [] (by_creation waiting)) db.events ≡ true =
        all-impl
          (λ y.
            (is_settled y || is_waiting cfg now y)
            && (not (is_waiting cfg now y) || is_among waiting y))
          (is_covered [] (by_creation waiting)) db.events
          (λ y h. ground (arith, any-by_creation (is_event y.event_id) waiting))
          (all-and (λ y. is_settled y || is_waiting cfg now y)
            (λ y. not (is_waiting cfg now y) || is_among waiting y) db.events ready
            (selected-is_among (is_waiting cfg now) db.events)) in
      rw chosen (
        all-impl (is_covered (claim_each now token (by_creation waiting) db).0 [])
          (λ y. is_settled y || is_held_by (claim_each now token (by_creation waiting) db).0 y)
          (claim_each now token (by_creation waiting) db).1.events (λ y h. ground arith)
          (claim_each-is_covered now token [] (by_creation waiting) db covered))
