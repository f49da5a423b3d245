-- ===== src/Bot.antt =====
-- discord-jockey/src: the Discord bot.
pub mod Logger
pub mod Slug
pub mod SessionIds
pub mod Sessions
pub mod Effects
pub mod Auth
pub mod Commands
pub mod Playback
pub mod Streams
pub mod Starts
pub mod Tables
pub mod Keeping
pub mod Isolation
pub mod Play
pub mod Tokens
pub mod Stopping
pub mod Sending
pub mod Answers
pub mod Registration
pub mod Absence
pub mod Playing
pub mod Threads
mod Fixtures
mod Examples
