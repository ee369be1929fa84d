-- ===== src/Ingest.antt =====
-- The write path: requests, validation, the buffer and the write-ahead log.
pub mod Types
pub mod Validate
pub mod Buffer
pub mod Wal
pub mod RemoteWrite
pub mod Service
pub mod Flush
pub mod Handlers
pub mod Fixtures
mod FlushTests
mod RunTests
mod Tests
