-- ===== src/Engine.antt =====
-- The engine: packages/engine/src/recruit_engine/{types,dedupe,matching,engine}.py.
pub mod Types
pub mod Matching
pub mod Hunt
pub mod Ai
pub mod Scoring
mod Tests
