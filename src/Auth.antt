-- ===== src/Auth.antt =====
-- src/aptly_gui/auth: who may do what, and what an identity provider says of a user.
pub mod Policy
pub mod Identity
pub mod Oidc
