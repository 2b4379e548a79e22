-- ===== src/Source.antt =====
-- The documents and reports that may be sent (erpnext_whatsapp_connection/api.py): Document has
-- `_validate_document` and the print formats, Report has `_validate_report`.
pub mod Document
pub mod Report
