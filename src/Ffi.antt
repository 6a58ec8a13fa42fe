-- ===== src/Ffi.antt =====
-- src/ffi.rs: the kernel behind C functions. A handle is a mutex over an engine, the last error and
-- the ids of the requests that it has seen.
pub mod Handle
pub mod Attempt
pub mod Requests
pub mod Json
pub mod Events
pub mod Execution
pub mod Entries
pub mod Reading
pub mod Lookups
pub mod Calls
pub mod Locking
pub mod Lost
pub mod Reports
pub mod Authority
pub mod Steps
pub mod Commands
pub mod Refinement
pub mod Verdict
pub mod Roots
pub mod Heads
pub mod Fresh
