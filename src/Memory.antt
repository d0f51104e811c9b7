-- ===== src/Memory.antt =====
-- app/memory/: the memory service, the manager in front of it, and the two workers that turn finished runs
-- into memories and memories into vectors.
mod Consolidation
mod Claims
mod Late
mod Window
mod History
mod Retention
mod Progress
mod Taken
mod Outbox
mod OutboxRound
mod Projection
mod Retries
mod Entries
mod Actions
mod Service
mod Guard
mod Ours
mod Owners
mod Announced
mod Batch
mod Calls
mod Together
mod Fresh
mod Served
mod Worked
mod Published
mod Kept
mod Behind
mod Claimed
mod Caught
mod CatchUp
mod Update
mod Again
mod Readded
mod Manager
mod Handover
mod Refusals
mod Obeyed
mod ServiceTests
mod BehindTests
mod Tests
mod HistoryTests
