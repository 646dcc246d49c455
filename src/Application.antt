-- ===== src/Application.antt =====
-- The package dispute/application: the use cases over a transactional store.
pub mod Records
pub mod Store
pub mod Rows
pub mod Frame
pub mod Routing
pub mod Balances
pub mod Clocks
pub mod Idempotent
pub mod Money
pub mod Reassign
pub mod Hold
pub mod NoticeRows
pub mod Notices
pub mod Assess
pub mod Attachments
pub mod ViewRecords
pub mod Views
pub mod Listing
pub mod Resend
pub mod Outbox
pub mod Log
pub mod Sound
pub mod Transition
pub mod Histories
