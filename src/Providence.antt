-- ===== src/Providence.antt =====
-- packages/providence-log: the hash chain of decision records, with its encoding, its writer, its pages,
-- its anchors and the test of their signer.
pub mod Records
pub mod Canonical
pub mod Encoding
pub mod Disk
pub mod Log
pub mod Chain
pub mod Anchors
pub mod Reachable
pub mod Page
pub mod Reopened
pub mod Recovery
pub mod Tamper
pub mod Refines
