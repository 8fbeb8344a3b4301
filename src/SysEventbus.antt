-- ===== src/SysEventbus.antt =====
-- apps/sys_eventbus: events on a Redis stream, and the tasks that run their handlers.
pub mod Envelope
pub mod Bus
pub mod Polling
pub mod Dispatch
mod Tests
