-- ===== src/Tests.antt =====
-- Runs of the definitions on concrete sites, and the theorems at inputs that meet their conditions.
mod Site
mod Data
mod Examples
mod Sending
mod Stored
mod Runs
mod Protocol
mod Disposable
mod Assets
