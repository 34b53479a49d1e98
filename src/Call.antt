-- ===== src/Call.antt =====
-- internal/call/manager.go: the calls between browsers or telephones and the FXO boxes. `Sdp` holds the
-- choice of the codec, `State` the state, `Registry` the maps of the manager, `Session` the life of a
-- call, `Invite`, `Inbound`, `Ringing` and `Outbound`
-- the handlers.
pub mod Tests
mod Runs
pub mod Sdp
pub mod State
pub mod Registry
pub mod Session
pub mod Media
pub mod Invite
pub mod Inbound
pub mod Ringing
pub mod Outbound
