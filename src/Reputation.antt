-- ===== src/Reputation.antt =====
-- internal/reputation/reputation.go: the scores of addresses, with the cache and the lists behind them. A time is a
-- number of nanoseconds. The data of feeds and the updaters are never read.
pub mod Lists
pub mod Inspect
pub mod Events
pub mod Explained
pub mod Staleness
mod Tests
