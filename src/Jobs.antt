-- ===== src/Jobs.antt =====
-- src/aptly_gui/services/jobs.py: the runner of the write jobs.
pub mod Plan
pub mod State
pub mod Steps
pub mod Await
pub mod Checks
pub mod Work
pub mod Update
pub mod Switch
pub mod Run
pub mod Queue
pub mod Reconcile
