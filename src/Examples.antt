-- ===== src/Examples.antt =====
-- The theorems at concrete inputs, and tests.
mod Fixed
mod Shards
mod Stores
mod Systems
mod Decisions
mod Labels
mod Replays
mod Money
mod Settings
mod Chats
mod Hits
mod Runs
mod Requests
