-- ===== src/Broker.antt =====
-- apps/broker: the routes of the broker and the services they share.
pub mod Audit
pub mod Deadline
pub mod Services
pub mod Request
pub mod Execute
pub mod Invoke
pub mod Clearance
pub mod Bound
pub mod Accounted
pub mod Recorded
pub mod Context
pub mod Kept
pub mod Registered
pub mod Answered
pub mod Admission
pub mod Admitted
