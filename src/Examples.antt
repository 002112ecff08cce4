-- ===== src/Examples.antt =====
-- Concrete runs: each theorem with a hypothesis is applied to values for which the hypotheses hold.
mod Cipher
mod Dna
mod Storage
mod Archive
mod Codec
mod Entries
mod Router
mod Strategy
mod Security
mod Research
mod Schema
mod Events
mod Agents
mod Engine
mod Clarification
