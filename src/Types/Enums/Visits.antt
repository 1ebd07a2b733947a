-- ===== src/Types/Enums/Visits.antt =====
-- packages/types/src/enums.ts: the states of visits, their approvals and memberships.
use manglam_balaji_managemen.Types.Enum.{Enum}
use manglam_balaji_managemen.Prelude.{String}

pub data VisitStatus : Type 0 where
  draft expected arrived_at_gate awaiting_approval approved rejected approval_timed_out checked_in
        checked_out cancelled expired :
      VisitStatus

unfoldable pub VisitStatus-discrete : Discrete VisitStatus
VisitStatus-discrete = hlevel

abbrev pub visit_status_text : VisitStatus → String
visit_status_text VisitStatus.draft = "DRAFT"
visit_status_text VisitStatus.expected = "EXPECTED"
visit_status_text VisitStatus.arrived_at_gate = "ARRIVED_AT_GATE"
visit_status_text VisitStatus.awaiting_approval = "AWAITING_APPROVAL"
visit_status_text VisitStatus.approved = "APPROVED"
visit_status_text VisitStatus.rejected = "REJECTED"
visit_status_text VisitStatus.approval_timed_out = "APPROVAL_TIMED_OUT"
visit_status_text VisitStatus.checked_in = "CHECKED_IN"
visit_status_text VisitStatus.checked_out = "CHECKED_OUT"
visit_status_text VisitStatus.cancelled = "CANCELLED"
visit_status_text VisitStatus.expired = "EXPIRED"

instance abbrev pub visit_status_enum : Enum VisitStatus
visit_status_enum = record { is = VisitStatus-discrete; text = visit_status_text }

pub data VisitApprovalStatus : Type 0 where
  pending approved rejected timed_out cancelled overridden : VisitApprovalStatus

unfoldable pub VisitApprovalStatus-discrete : Discrete VisitApprovalStatus
VisitApprovalStatus-discrete = hlevel

abbrev pub visit_approval_status_text : VisitApprovalStatus → String
visit_approval_status_text VisitApprovalStatus.pending = "PENDING"
visit_approval_status_text VisitApprovalStatus.approved = "APPROVED"
visit_approval_status_text VisitApprovalStatus.rejected = "REJECTED"
visit_approval_status_text VisitApprovalStatus.timed_out = "TIMED_OUT"
visit_approval_status_text VisitApprovalStatus.cancelled = "CANCELLED"
visit_approval_status_text VisitApprovalStatus.overridden = "OVERRIDDEN"

instance abbrev pub visit_approval_status_enum : Enum VisitApprovalStatus
visit_approval_status_enum = record {
  is = VisitApprovalStatus-discrete;
  text = visit_approval_status_text;
}

pub data ApprovalSource : Type 0 where
  resident_app pre_approval guard_override system : ApprovalSource

unfoldable pub ApprovalSource-discrete : Discrete ApprovalSource
ApprovalSource-discrete = hlevel

abbrev pub approval_source_text : ApprovalSource → String
approval_source_text ApprovalSource.resident_app = "RESIDENT_APP"
approval_source_text ApprovalSource.pre_approval = "PRE_APPROVAL"
approval_source_text ApprovalSource.guard_override = "GUARD_OVERRIDE"
approval_source_text ApprovalSource.system = "SYSTEM"

instance abbrev pub approval_source_enum : Enum ApprovalSource
approval_source_enum = record { is = ApprovalSource-discrete; text = approval_source_text }

pub data PreApprovalStatus : Type 0 where
  active consumed cancelled expired suspended : PreApprovalStatus

unfoldable pub PreApprovalStatus-discrete : Discrete PreApprovalStatus
PreApprovalStatus-discrete = hlevel

abbrev pub pre_approval_status_text : PreApprovalStatus → String
pre_approval_status_text PreApprovalStatus.active = "ACTIVE"
pre_approval_status_text PreApprovalStatus.consumed = "CONSUMED"
pre_approval_status_text PreApprovalStatus.cancelled = "CANCELLED"
pre_approval_status_text PreApprovalStatus.expired = "EXPIRED"
pre_approval_status_text PreApprovalStatus.suspended = "SUSPENDED"

instance abbrev pub pre_approval_status_enum : Enum PreApprovalStatus
pre_approval_status_enum = record {
  is = PreApprovalStatus-discrete;
  text = pre_approval_status_text;
}

pub data MembershipStatus : Type 0 where
  pending approved rejected suspended ended : MembershipStatus

unfoldable pub MembershipStatus-discrete : Discrete MembershipStatus
MembershipStatus-discrete = hlevel

abbrev pub membership_status_text : MembershipStatus → String
membership_status_text MembershipStatus.pending = "PENDING"
membership_status_text MembershipStatus.approved = "APPROVED"
membership_status_text MembershipStatus.rejected = "REJECTED"
membership_status_text MembershipStatus.suspended = "SUSPENDED"
membership_status_text MembershipStatus.ended = "ENDED"

instance abbrev pub membership_status_enum : Enum MembershipStatus
membership_status_enum = record { is = MembershipStatus-discrete; text = membership_status_text }
