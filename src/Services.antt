-- ===== src/Services.antt =====
-- src/aptly_gui/services: the decisions that the jobs and the pages take.
pub mod Space
pub mod Naming
pub mod Presets
pub mod Verify
pub mod Adoption
