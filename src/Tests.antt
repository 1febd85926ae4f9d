-- ===== src/Tests.antt =====
-- The theorems at concrete inputs, and the data that the inputs are made of.
mod Samples
mod Tracker
mod Playlist
mod Auth
mod Player
mod Library
mod Network
mod World
mod Discovery
mod App
mod Shown
mod Share
mod Tui
mod Cli
