-- ===== src/Session.antt =====
-- daemon/gdm-session.c: the daemon's side of a login. Session/Types has the session files and the type
-- of the session, Session/State the conversations with their workers.
pub mod Types
pub mod Sorted
pub mod Fallback
pub mod State
pub mod Events
pub mod Loop
pub mod Order
pub mod Keeps
pub mod Protocol
pub mod Callbacks
pub mod Endings
pub mod Histories
pub mod Resets
pub mod Tests
