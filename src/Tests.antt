-- ===== src/Tests.antt =====
-- The properties on concrete inputs.
mod World
mod Values
mod Codes
mod Sessions
mod Ledgers
mod Graphs
mod Regions
mod Bindings
