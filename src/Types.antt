-- ===== src/Types.antt =====
-- packages/types: the enumerations and contracts that the packages share.
pub mod Enum
pub mod Enums
pub mod Errors
