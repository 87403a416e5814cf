-- ===== src/Ipc.antt =====
-- The objects over which processes meet: Xernel/kernel/src/endpoint.rs, notification.rs and
-- frame_ref.rs. A table of mutexes is a list, and one locked section is one step.
pub mod Endpoint
pub mod Notification
pub mod FrameRef
mod Tests
