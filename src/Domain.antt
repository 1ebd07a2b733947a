-- ===== src/Domain.antt =====
-- packages/domain: the rules of the society's records, apart from storage and transport.
pub mod StateMachine
pub mod Codes
pub mod Otp
pub mod Visit
pub mod Approval
pub mod Complaint
pub mod Payment
pub mod DailyHelp
pub mod Membership
pub mod Emergency
pub mod Parcel
pub mod Notification
pub mod Json
pub mod OfflineSync
