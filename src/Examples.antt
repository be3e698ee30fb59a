-- ===== src/Examples.antt =====
-- The theorems at concrete inputs.
pub mod Buffers
pub mod Lists
pub mod Handles
pub mod Graphs
pub mod Stores
pub mod Counting
pub mod Rounds
pub mod Plugins
pub mod Programs
pub mod Sessions
