-- ===== src/Tests.antt =====
-- The theorems at concrete inputs, and runs of the definitions.
mod Memory
mod Revisions
mod Commands
mod Calls
mod Statements
mod Schemas
mod Ordering
mod Typehints
mod Pages
mod Client
mod Actions
mod Traces
mod Caches
mod Generated
