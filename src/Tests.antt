-- ===== src/Tests.antt =====
-- Runs of the model on concrete data, and the theorems of the other modules applied to it.
mod Sample
mod Updating
mod Migrations
mod Sessions
mod Environment
mod Runner
mod Queue
mod Services
mod Web
mod Pages
