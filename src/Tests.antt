-- ===== src/Tests.antt =====
-- Runs of the model at concrete inputs.
mod Lifecycle
mod Ledger
mod Deadline
mod Risk
mod Questionnaire
mod Application
mod Reassign
mod Resend
mod Attachments
mod Templates
mod Hold
mod Transition
mod Views
mod Platform
mod Outbox
mod Listing
mod MockCore
