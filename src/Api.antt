-- ===== src/Api.antt =====
-- apps/api/src: the services of the API, each as steps on the tables that it reads and writes. A
-- service that throws has its transaction rolled back, so that it gives no new tables.
pub mod Errors
pub mod Attempts
pub mod Journal
pub mod Digests
pub mod Sessions
