-- ===== src/Types/Enums.antt =====
-- packages/types/src/enums.ts, by the part of the program that the states belong to.
pub mod Visits
pub mod Records
pub mod Payments
pub mod Platform
