-- ===== src/Permissions.antt =====
-- packages/permissions: who may do what.
pub mod Catalog
pub mod Policies
pub mod Authorize
