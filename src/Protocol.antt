-- ===== src/Protocol.antt =====
-- Requests and responses: their encode and decode methods over the two interfaces of Wire.
pub mod Fields
pub mod Group
pub mod Membership
pub mod Leave
pub mod Rules
pub mod GroupRoundTrip
pub mod MembershipRoundTrip
pub mod LeaveRoundTrip
pub mod GroupMessage
pub mod Puttable
pub mod EndToEnd
pub mod Transactions
pub mod TxnRoundTrip
pub mod Again
mod Runs
mod TxnRuns
