-- ===== src/Acceptance.antt =====
-- The acceptance run on the disposable site: group_acceptance.py, group_browser_acceptance.py and
-- acceptance.py of erpnext_whatsapp_connection.
pub mod Peer
pub mod Handler
pub mod Answered
pub mod Replay
pub mod Tallies
pub mod Captured
pub mod Environment
pub mod Restored
pub mod Jobs
pub mod Finished
pub mod Installed
pub mod Preserved
pub mod Url
pub mod Browser
pub mod Commands
pub mod Shown
pub mod Clean
pub mod Redacted
