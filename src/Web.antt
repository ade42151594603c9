-- ===== src/Web.antt =====
-- src/aptly_gui/web: the guard before every page, what the pages read, decide and write, and the cached
-- read of aptly. Templates are not modelled.
pub mod Guard
pub mod Users
pub mod SignIn
pub mod Provided
pub mod State
pub mod Deletions
pub mod Forms
pub mod Sets
pub mod Settings
pub mod Setup
pub mod Views
pub mod Format
pub mod Session
pub mod Lifespan
