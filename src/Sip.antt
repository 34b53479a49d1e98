-- ===== src/Sip.antt =====
-- internal/sipx/service.go: boxes register, and their INVITEs are matched with where they registered. The
-- parser of the Authorization header and MD5 are parameters, the tokens of a challenge and the time come from
-- outside. Times are Unix seconds.
mod Tests
pub mod Tokens
pub mod Nonces
pub mod Register
pub mod Identity
pub mod Invite
