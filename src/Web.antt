-- ===== src/Web.antt =====
-- web/src: the helpers that the pages share, and the pages.
pub mod Errors
pub mod Format
pub mod Timestamps
pub mod Calendar
pub mod Machine
pub mod Sets
pub mod Station
pub mod Player
pub mod Create
pub mod Admin
pub mod Pages
pub mod Archive
pub mod Served
pub mod YouTubeSearch
pub mod StationPage
mod Fixtures
mod Examples
