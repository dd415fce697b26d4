-- ===== src/Envelope.antt =====
-- internal/envelope: the pipeline that decides on proposals of agents. What a rejection says beside
-- its codes (`Detail`, and the rendered `Error()` text) is left out.
pub mod Proposal
pub mod Values
pub mod Constraints
pub mod Bounds
pub mod Dampener
pub mod Shadow
pub mod Submit
pub mod Agent
mod Tests
