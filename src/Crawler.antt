-- ===== src/Crawler.antt =====
-- pkg/plugin/implementation/catalogcrawler: the work queue of catalogs to crawl, its cursors, the
-- batches that are pushed, and the scheduler.
pub mod Rows
pub mod Queue
pub mod Cursors
pub mod Tables
pub mod Sound
pub mod Ready
pub mod Steps
pub mod Claims
pub mod Sweep
pub mod Tick
pub mod Settling
pub mod Envelopes
pub mod Batch
pub mod Batches
pub mod Split
pub mod Pushed
pub mod Sizes
pub mod Discovery
pub mod Discovered
pub mod Networks
pub mod Scheduler
pub mod Settings
pub mod Tests
