-- ===== src/Tests.antt =====
-- The theorems at concrete inputs, and runs of the model.
mod Digest
mod Sync
mod Start
mod Keys
mod Session
mod Counters
mod Access
mod Process
mod Backend
mod Health
mod Logs
mod Tools
mod Config
mod Handlers
mod Node
mod Client
mod Races
mod Overlaps
mod Rest
mod Version
