-- ===== src/Memory/Retries.antt =====
-- What the outbox worker makes of an event whose publishing raised.
use globuy.Prelude.{
  ℕ, zero, suc, ◌+◌, ◌*◌, ◌≤◌, ◌<◌, ◌≡◌, true, false, Option, none, some, List, [], ◌∷◌, leb, arith,
  find_first-update,
}
use globuy.Memory.Outbox.{
  OutboxEvent, Tables, OutboxConfig, is_event, event_row, update_events, clamp_get,
  outbox_retry_seconds, retry_event, fail_event_row, fail_event, is_waiting, is_memory,
}

abbrev Within : ℕ → ℕ → List ℕ → Type 0
Within low high [] = Unit {0}
Within low high (d ∷ ds) = (low ≤ d) × (d ≤ high) × Within low high ds

clamp_get-Within :
    (low high n last : ℕ) (ds : List ℕ)
    → low ≤ last
    → last ≤ high
    → Within low high ds
    → (low ≤ clamp_get n last ds) × (clamp_get n last ds ≤ high)
unfolding clamp_get
clamp_get-Within low high n last [] h k all_in = (h, k)
clamp_get-Within low high zero last (d ∷ ds) h k all_in = (all_in.0, all_in.1)
clamp_get-Within low high (suc n) last (d ∷ ds) h k all_in =
    clamp_get-Within low high n d ds all_in.0 all_in.1 all_in.2

-- The delays lie between 5 and 600 seconds.
clamp_get_bounds :
    (n : ℕ) → (5 ≤ clamp_get n 0 outbox_retry_seconds) × (clamp_get n 0 outbox_retry_seconds ≤ 600)
unfolding clamp_get
clamp_get_bounds zero = (omega arith, omega arith)
clamp_get_bounds (suc n) =
    clamp_get-Within 5 600 n 5 (10 ∷ 20 ∷ 40 ∷ 80 ∷ 160 ∷ 320 ∷ 600 ∷ []) (omega arith)
      (omega arith) (ground arith)

fail_event_row-held :
    (cfg : OutboxConfig) (e token now : ℕ) (o : Option OutboxEvent) (x : OutboxEvent) (db : Tables)
    → o ≡ some x
    → x.claim_token ≡ some token
    → fail_event_row cfg e token now o db ≡ update_events (is_event e) (retry_event cfg now) db
fail_event_row-held cfg e token now o x db row held = rw (row, held) (ground arith)

-- A held event whose publishing raised: below the most attempts it waits for 5 to 600 seconds and may
-- then be claimed again, and from then on it may be claimed at no time.
failed_event_retries :
    (cfg : OutboxConfig) (e token now : ℕ) (x : OutboxEvent) (db : Tables)
    → event_row e db ≡ some x
    → x.claim_token ≡ some token
    → is_memory x.aggregate_type ≡ true
    → x.published_at ≡ none
    → x.dead_lettered_at ≡ none
    → (y : OutboxEvent) × (event_row e (fail_event cfg e token now db) ≡ some y)
      × (x.attempts < cfg.max_attempts
          → (seconds : ℕ) × (5 ≤ seconds)
            × (seconds ≤ 600)
            × ((later : ℕ) → is_waiting cfg later y ≡ leb (now + seconds * 1000000) later))
      × (cfg.max_attempts ≤ x.attempts → (later : ℕ) → is_waiting cfg later y ≡ false)
unfolding fail_event event_row
failed_event_retries cfg e token now x db row held kind unpublished alive = (
  retry_event cfg now x,
  rw (fail_event_row-held cfg e token now (event_row e db) x db row held)
      (find_first-update (is_event e) (retry_event cfg now) db.events x (λ y h. h) row),
  λ few.
      let seconds : ℕ = clamp_get x.attempts 0 outbox_retry_seconds in
      (
        seconds,
        (clamp_get_bounds x.attempts).0,
        (clamp_get_bounds x.attempts).1,
        λ later. rw (kind, unpublished, alive) (ground arith),
      ),
  λ many later. rw (kind, unpublished, alive) (ground arith),
)
