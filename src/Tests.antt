-- ===== src/Tests.antt =====
-- A small world for the tests: concrete outside functions, tables and payloads.
pub mod Outside
pub mod Endpoint
pub mod Ingestion
pub mod Sweeping
pub mod Calls
pub mod Indexing
pub mod Imports
pub mod Tokens
pub mod Archives
