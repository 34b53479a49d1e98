-- ===== src/Web.antt =====
-- internal/web/server.go: the HTTP interface and the signalling over WebSocket. `Http` holds requests and
-- responses, `Values` the functions on texts and times, `Router` the routes with their guards, and the
-- other children the handlers and what holds of them.
pub mod Http
pub mod Values
pub mod Sessions
pub mod Accounts
pub mod Boxes
pub mod Listings
pub mod Events
pub mod BoxStatus
pub mod Signaling
pub mod Router
pub mod Tests
mod Runs
