-- ===== src/Presenter.antt =====
-- src/engine/Presenter.cpp: the presenter, a mailbox of one frame between the threads that submit
-- frames and the worker that renders them.
-- Every method and every part of the worker's loop between two locks is one step on the members of
-- `Presenter::Impl`; the threads interleave in any order of such steps (`Presenter.Steps`).
pub mod State
pub mod Submit
pub mod Worker
pub mod Steps
pub mod Accounting
pub mod Handed
pub mod Newest
pub mod Regions
mod Tests
