-- ===== src/Core/Hub.antt =====
-- core/hub.py: the hub's state machine.
pub mod State
pub mod Util
pub mod Session
pub mod Delivery
pub mod Lifecycle
pub mod Route
pub mod Say
pub mod Hello
pub mod Control
pub mod Watchdog
pub mod Dispatch
pub mod Init
pub mod Quiet
pub mod Sound
pub mod Seated
pub mod Budget
pub mod Private
pub mod Outcome
pub mod Tests
