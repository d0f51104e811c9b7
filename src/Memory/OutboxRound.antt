-- ===== src/Memory/OutboxRound.antt =====
-- app/memory/outbox_worker.py: `run_once` of MemoryOutboxWorker, a round over the transactions of
-- Memory.Outbox.
use globuy.Prelude.{ℕ, ◌+◌, Bool, true, false, Option, none, some, List, [], ◌∷◌}
use globuy.Sessions.Schema.{Text}
use globuy.Memory.Outbox.{OutboxConfig, Tables, claim_events, publish_event, fail_event}

pub record RoundCount : Type 0 where
  pub published : ℕ
  pub failed : ℕ

module _ (encode : Text → Option (List ℕ)) (metadata : ℕ) (memory_hash : Text → ℕ)
    (cfg : OutboxConfig) where
  abbrev pub or_failed : ℕ → ℕ → ℕ → Tables → Option Tables → Bool × Tables
  or_failed e token now db none = (false, fail_event cfg e token now db)
  or_failed e token now db (some after) = (true, after)

  abbrev pub tally : Bool → RoundCount → RoundCount
  tally true n = record n { published = n.published + 1 }
  tally false n = record n { failed = n.failed + 1 }

  -- The loop of run_once over its claims.
  unfoldable pub publish_each : List (ℕ × ℕ) → ℕ → RoundCount → Tables → RoundCount × Tables
  unfolding publish_event fail_event
  publish_each [] now n db = (n, db)
  publish_each ((e, token) ∷ cs) now n db =
      let (done, after) =
        or_failed e token now db (publish_event encode metadata memory_hash e token now db) in
      publish_each cs now (tally done n) after

  unfoldable pub run_outbox : ℕ → ℕ → ℕ → Tables → RoundCount × Tables
  unfolding claim_events publish_each
  run_outbox token now later db =
      let (claims, held) = claim_events cfg now token db in
      publish_each claims later (record { published = 0; failed = 0 }) held
