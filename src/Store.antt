-- ===== src/Store.antt =====
-- src/store/: the parts of the index that decide, without the database.
pub mod Chains
pub mod RegionSpans
pub mod Regions
mod RegionTests
