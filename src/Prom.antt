-- ===== src/Prom.antt =====
-- crates/obs-prom/src: the series that a scrape shows, and the sink that feeds them.
pub mod Series
pub mod Registry
pub mod Names
pub mod Deliver
pub mod Render
mod Tests
