-- ===== src/Search.antt =====
-- HW1, the search of files by criteria in a tree of directories.
pub mod Pattern
pub mod Walk
mod Tests
