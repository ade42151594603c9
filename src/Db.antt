-- ===== src/Db.antt =====
-- src/aptly_gui/db: the rows that the program keeps, and the tables.
pub mod Models
pub mod Progress
pub mod Schema
pub mod Scripts
pub mod Migrate
pub mod Upgrade
pub mod Downgrade
