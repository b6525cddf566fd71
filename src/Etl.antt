-- ===== src/Etl.antt =====
-- internal/etl: the worker pool that loads the queued files into BigQuery.
pub mod Program
pub mod Rows
pub mod Schema
pub mod Current
pub mod Retry
pub mod Worker
pub mod Pool
mod Tests
