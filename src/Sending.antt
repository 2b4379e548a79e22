-- ===== src/Sending.antt =====
-- Sending from the desk: the dialogs and the calls that queue a delivery, of
-- erpnext_whatsapp_connection/api.py. Context has what a message may name, Offer the message
-- templates, ReportPage and ReportPdf the rendering of a report, Store the delivery row with its
-- PDF, Queue and Calls the two calls that queue, Dialog the dialogs and previews; the other modules
-- are about these.
pub mod Context
pub mod Offer
pub mod ReportPage
pub mod ReportPdf
pub mod Escaped
pub mod Chosen
pub mod Offered
pub mod Prepared
pub mod Store
pub mod Queue
pub mod Calls
pub mod Dialog
pub mod Written
pub mod Stored
pub mod Fresh
pub mod Delivered
pub mod Copies
pub mod Queued
pub mod Attempts
pub mod Checks
pub mod Approved
pub mod Limit
