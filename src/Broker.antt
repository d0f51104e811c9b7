-- ===== src/Broker.antt =====
-- app/api/event_broker.py.
pub mod Stream
pub mod Order
mod Ending
pub mod Table
pub mod Keys
pub mod Isolation
mod Monitor
mod Envelope
mod Log
mod Tests
