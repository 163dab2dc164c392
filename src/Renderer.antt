-- ===== src/Renderer.antt =====
-- src/render/Renderer.cpp: which parts of a frame are drawn, and the drawing of them.
pub mod Plan
pub mod Exact
pub mod Normalize
pub mod State
pub mod Render
pub mod Lossless
pub mod Aligned
pub mod Screen
pub mod Outcome
pub mod Synced
pub mod Shown
pub mod Place
pub mod Settled
pub mod Run
pub mod Recovery
pub mod Regions
mod Tests
