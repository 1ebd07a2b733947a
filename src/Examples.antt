-- ===== src/Examples.antt =====
-- Runs of the modelled code on concrete records, and the theorems at these records.
pub mod Visits
pub mod Services
pub mod Payments
pub mod Passwords
pub mod Notices
pub mod Offline
pub mod Access
pub mod Worker
pub mod Api
