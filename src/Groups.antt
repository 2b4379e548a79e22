-- ===== src/Groups.antt =====
-- Company groups: erpnext_whatsapp_connection/company_groups.py.
pub mod Identity
pub mod Config
pub mod Rules
pub mod Copy
pub mod Release
pub mod Checked
pub mod Renamed
