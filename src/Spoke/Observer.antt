-- ===== src/Spoke/Observer.antt =====
-- spoke/observer.py: the human seat.
pub mod Parse
pub mod Seat
pub mod Pretty
pub mod Command
pub mod Lines
pub mod Status
pub mod Tui
mod Tests
