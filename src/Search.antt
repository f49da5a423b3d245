-- ===== src/Search.antt =====
-- web/src/routes/api/youtube-search/+server.ts: the search endpoint of the web server.
pub mod Entities
pub mod Escapes
pub mod References
pub mod Cache
pub mod Bounds
pub mod Keys
pub mod Json
pub mod Responses
pub mod Trimming
pub mod Handler
pub mod Keeps
pub mod Entries
pub mod Results
pub mod Replies
pub mod Interleavings
pub mod Provenance
mod Fixtures
mod Examples
