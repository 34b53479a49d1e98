-- ===== src/Store.antt =====
-- internal/store/store.go: the tables and the operations on them. `Schema` holds the rows, the errors
-- and the state, and one child for each table holds the operations; the other children hold proofs.
pub mod Tests
mod Runs
pub mod Schema
pub mod Users
pub mod Settings
pub mod Boxes
pub mod Registrations
pub mod CallLogs
pub mod Contacts
pub mod Devices
pub mod Permissions
pub mod Statements
