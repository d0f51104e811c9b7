-- ===== src/Memory/BehindTests.antt =====
-- A test of the memory service and the outbox worker on one database, and the theorem at a concrete world.
use globuy.Prelude.{
  ◌≤◌, ◌||◌, all, length, select_where, ℕ, true, false, ◌+◌, ◌≡◌, refl, some, List, [], ◌∷◌, map,
  is_some, arith,
}
use globuy.Sessions.Schema.{Text}
use globuy.Memory.Outbox.{OutboxEvent, Embedding, OutboxConfig, is_waiting, event_row, entry_row}
use globuy.Memory.OutboxRound.{run_outbox}
use globuy.Memory.Together.{
  MemoryWorld, MemoryMove, new_events, without_outbox, tables_of, serve, claim_move, publish_move,
  fail_move, requeue_move, moves,
}
use globuy.Memory.Calls.{update_call, delete_call}
use globuy.Memory.Fresh.{Fresh}
use globuy.Memory.ServiceTests.{plain, at, three, three-InOrder}
use globuy.Memory.Claimed.{is_settled}
use globuy.Memory.CatchUp.{is_embedded, memories_catch_up}
use globuy.Memory.Behind.{no_memory_left_behind}

abbrev config : OutboxConfig
config = record { lease = 100; max_attempts = 3; batch_size = 2 }

abbrev letters : Text → ℕ
letters [] = 0
letters (x ∷ xs) = x + letters xs

-- The events of three memories, and no embedding.
abbrev written : MemoryWorld
written = record {
  memories = without_outbox three;
  events = new_events 0 three.outbox;
  embeddings = [];
  next_event = 3;
}

written-Fresh : Fresh (λ t. some t) letters written
written-Fresh = record {
  entries_unique = three-InOrder.unique;
  no_conflict = refl;
  all_fresh = refl;
  single_events = λ e. ground arith;
  ids_below = refl;
  no_deletions = refl;
}

-- The text changes between the claim and the publishing, one event fails, and one memory is deleted.
abbrev steps : List MemoryMove
steps =
    claim_move 10 77
    ∷ serve (update_call (at 1 11) 10 (103 ∷ []))
    ∷ publish_move 0 77 12
    ∷ fail_move 1 77 13
    ∷ requeue_move 1 14
    ∷ serve (delete_call (at 2 15) 20)
    ∷ claim_move 16 88
    ∷ publish_move 1 88 17
    ∷ []

-- The first publishing embeds the text that the memory has by then.
embedded_texts :
    map Embedding.content_hash (moves plain (λ t. some t) 1 letters config steps written).embeddings
    ≡ 312 ∷ 103 ∷ []
unfolding moves event_row entry_row
embedded_texts = refl

published_events :
    map
      (λ e. is_some (OutboxEvent.published_at e))
      (moves plain (λ t. some t) 1 letters config steps written).events
    ≡ true ∷ true ∷ false ∷ false ∷ []
unfolding moves event_row entry_row
published_events = refl

no_memory_left_behind_example :
    Fresh (λ t. some t) letters (moves plain (λ t. some t) 1 letters config steps written)
no_memory_left_behind_example =
    no_memory_left_behind (λ t. some t) 1 letters plain config steps written written-Fresh

-- Behind a change of one text, a round that takes all four events.
abbrev changed : MemoryWorld
changed =
    moves plain (λ t. some t) 1 letters config (serve (update_call (at 1 11) 10 (103 ∷ [])) ∷ [])
      written

abbrev large : OutboxConfig
large = record { lease = 100; max_attempts = 3; batch_size = 4 }

all_wait : all (λ y. is_settled y || is_waiting large 20 y) changed.events ≡ true
unfolding moves event_row entry_row
all_wait = refl

fits : length (select_where (is_waiting large 20) changed.events) ≤ 4
unfolding moves event_row entry_row
fits = omega arith

memories_catch_up_example :
    let (count, t) = run_outbox (λ t. some t) 1 letters large 90 20 21 (tables_of changed) in
    (count.failed ≡ 0) × (is_embedded (λ t. some t) 1 letters changed.memories.entries t ≡ true)
memories_catch_up_example =
    memories_catch_up (λ t. some t) 1 letters (λ t. refl) large 90 20 21 changed
      (no_memory_left_behind (λ t. some t) 1 letters plain config
        (serve (update_call (at 1 11) 10 (103 ∷ [])) ∷ []) written written-Fresh)
      all_wait fits
