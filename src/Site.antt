-- ===== src/Site.antt =====
-- The site that the app runs on: the records that it stores (Records), what it relies on in Frappe,
-- Python's library and the gateway (Frappe), and its mutable state with the calls that change it
-- (World).
pub mod Records
pub mod Frappe
pub mod World
pub mod Rows
