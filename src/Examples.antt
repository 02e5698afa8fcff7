-- ===== src/Examples.antt =====
-- The theorems at concrete inputs, and runs of the modelled code.
pub mod Data
mod RateLimits
pub mod AuthRateLimits
mod Albums
mod AlbumChanges
mod Tasks
mod TasksInRedis
mod Thumbnails
mod Uploads
mod Cleanup
mod Scheduler
mod Storage
pub mod Accounts
mod Letters
mod Codec
mod Config
mod Sessions
mod Sharex
mod Tokens
mod Auth
