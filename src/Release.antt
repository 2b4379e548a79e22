-- ===== src/Release.antt =====
-- The release scripts under scripts.
pub mod Evidence
pub mod Accepted
pub mod Manifest
pub mod Listed
