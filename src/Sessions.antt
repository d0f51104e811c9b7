-- ===== src/Sessions.antt =====
-- app/database/session_store.py: class SQLAlchemySessionStore, each method one transaction.
-- The row locks (`with_for_update`) make a method atomic. The clock and uuid4 are arguments.
pub mod Schema
pub mod Action
pub mod Rows
mod Title
pub mod Threads
pub mod Runs
mod Hoare
pub mod Sound
mod SoundWrites
pub mod SoundThreads
pub mod SoundRuns
mod Calls
mod Replay
mod Total
pub mod Finish
mod Revival
mod Pages
pub mod Artifacts
mod Detail
mod ReadTests
mod Tests
