-- ===== src/Migrations.antt =====
-- mountaineer/migrations: sessions and revisions, the order of revisions, the commands, and the
-- actions on the database.
pub mod Database
pub mod Migrator
pub mod Revision
pub mod ClientIo
pub mod Cli
pub mod Stubs
pub mod Serializer
pub mod Handlers
pub mod Generator
pub mod Actions
