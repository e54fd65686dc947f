-- ===== src/Core.antt =====
-- src/moot/core: the hub and what it is made of.
pub mod Clock
pub mod Config
pub mod Types
pub mod Buffer
pub mod Bucket
pub mod Dedup
pub mod Proto
pub mod Frame
pub mod Server
pub mod Hub
pub mod Loop
pub mod Transcript
pub mod Tests
