-- ===== src/Examples.antt =====
-- Concrete tables, and the theorems at them.
mod Labelling
mod Crawling
mod Answering
mod Redirecting
mod SigningIn
mod Queue
mod Sending
mod Approvals
mod Moving
mod Runs
mod Cooling
mod Risks
mod Editing
mod Covering
mod Rows
