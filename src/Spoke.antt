-- ===== src/Spoke.antt =====
-- src/moot/spoke: what runs beside an agent.
pub mod Brief
pub mod Conn
pub mod Ctl
pub mod Home
pub mod Inbox
pub mod Observer
pub mod Render
pub mod Stream
pub mod Terminal
