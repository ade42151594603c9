-- ===== src/Aptly.antt =====
-- src/aptly_gui/aptly: the client of aptly's REST API.
pub mod Fields
pub mod Models
pub mod Errors
pub mod Client
