-- ===== src/Events.antt =====
-- The event log of an agent's state: how a record is sealed (events/sealing.py), and how a change of
-- state is written down and replayed (events/codec.py).
pub mod Errors
pub mod Sealing
pub mod Json
pub mod Codec
pub mod Store
