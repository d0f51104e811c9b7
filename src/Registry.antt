-- ===== src/Registry.antt =====
-- app/api/run_registry.py: the runs and their tasks, between the session store and the broker.
pub mod Agent
mod Final
mod Search
mod Deltas
pub mod Task
mod Streams
mod Rows
mod Phases
mod Ends
mod Lifecycle
pub mod Control
mod View
pub mod Starts
mod Ready
mod Handover
mod Started
mod Seen
mod Tests
mod StartTests
