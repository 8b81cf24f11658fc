-- ===== src/Commands.antt =====
-- remoteControlCommands: the methods that clients call.
pub mod Scheduler
pub mod Tracks
pub mod Playlists
pub mod Missing
pub mod Ratings
pub mod TrackLaws
pub mod Subscribe
pub mod SchedulerLaws
pub mod SchedulerResults
pub mod SubscribeLaws
mod Tests
mod MissingTests
