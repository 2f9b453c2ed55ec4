-- ===== src/Videoconference.antt =====
-- src/services/videoconference: the conferences of courses and events. The meetings themselves are
-- held on another server, whose answers are parameters.
pub mod Meeting
pub mod Service
pub mod Conference
mod Laws
mod Tests
