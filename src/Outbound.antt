-- ===== src/Outbound.antt =====
-- The delivery worker and the scheduler: erpnext_whatsapp_connection/outbound.py. Snapshot has
-- `_pdf_payload`, Worker has `process_outbound_message`, Scheduler the jobs that run each minute.
pub mod Snapshot
pub mod Worker
pub mod Scheduler
pub mod Frame
pub mod Outcome
pub mod Retry
pub mod Total
pub mod Sends
pub mod Events
pub mod Budget
pub mod Kept
pub mod Runs
pub mod Limit
pub mod Life
pub mod Due
pub mod Requeued
