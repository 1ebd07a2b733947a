-- ===== src/Types/Enums/Records.antt =====
-- packages/types/src/enums.ts: the states of daily help, parcels, complaints and emergencies.
use manglam_balaji_managemen.Types.Enum.{Enum}
use manglam_balaji_managemen.Prelude.{String}

pub data DailyHelpStatus : Type 0 where
  active suspended inactive : DailyHelpStatus

unfoldable pub DailyHelpStatus-discrete : Discrete DailyHelpStatus
DailyHelpStatus-discrete = hlevel

abbrev pub daily_help_status_text : DailyHelpStatus → String
daily_help_status_text DailyHelpStatus.active = "ACTIVE"
daily_help_status_text DailyHelpStatus.suspended = "SUSPENDED"
daily_help_status_text DailyHelpStatus.inactive = "INACTIVE"

instance abbrev pub daily_help_status_enum : Enum DailyHelpStatus
daily_help_status_enum = record { is = DailyHelpStatus-discrete; text = daily_help_status_text }

pub data AttendanceStatus : Type 0 where
  checked_in checked_out voided : AttendanceStatus

unfoldable pub AttendanceStatus-discrete : Discrete AttendanceStatus
AttendanceStatus-discrete = hlevel

abbrev pub attendance_status_text : AttendanceStatus → String
attendance_status_text AttendanceStatus.checked_in = "CHECKED_IN"
attendance_status_text AttendanceStatus.checked_out = "CHECKED_OUT"
attendance_status_text AttendanceStatus.voided = "VOIDED"

instance abbrev pub attendance_status_enum : Enum AttendanceStatus
attendance_status_enum = record { is = AttendanceStatus-discrete; text = attendance_status_text }

pub data ParcelStatus : Type 0 where
  expected arrived held_at_gate collected returned cancelled : ParcelStatus

unfoldable pub ParcelStatus-discrete : Discrete ParcelStatus
ParcelStatus-discrete = hlevel

abbrev pub parcel_status_text : ParcelStatus → String
parcel_status_text ParcelStatus.expected = "EXPECTED"
parcel_status_text ParcelStatus.arrived = "ARRIVED"
parcel_status_text ParcelStatus.held_at_gate = "HELD_AT_GATE"
parcel_status_text ParcelStatus.collected = "COLLECTED"
parcel_status_text ParcelStatus.returned = "RETURNED"
parcel_status_text ParcelStatus.cancelled = "CANCELLED"

instance abbrev pub parcel_status_enum : Enum ParcelStatus
parcel_status_enum = record { is = ParcelStatus-discrete; text = parcel_status_text }

pub data ComplaintStatus : Type 0 where
  opened assigned in_progress resolved closed reopened cancelled : ComplaintStatus

unfoldable pub ComplaintStatus-discrete : Discrete ComplaintStatus
ComplaintStatus-discrete = hlevel

abbrev pub complaint_status_text : ComplaintStatus → String
complaint_status_text ComplaintStatus.opened = "OPEN"
complaint_status_text ComplaintStatus.assigned = "ASSIGNED"
complaint_status_text ComplaintStatus.in_progress = "IN_PROGRESS"
complaint_status_text ComplaintStatus.resolved = "RESOLVED"
complaint_status_text ComplaintStatus.closed = "CLOSED"
complaint_status_text ComplaintStatus.reopened = "REOPENED"
complaint_status_text ComplaintStatus.cancelled = "CANCELLED"

instance abbrev pub complaint_status_enum : Enum ComplaintStatus
complaint_status_enum = record { is = ComplaintStatus-discrete; text = complaint_status_text }

pub data EmergencyStatus : Type 0 where
  active acknowledged responding resolved false_alarm : EmergencyStatus

unfoldable pub EmergencyStatus-discrete : Discrete EmergencyStatus
EmergencyStatus-discrete = hlevel

abbrev pub emergency_status_text : EmergencyStatus → String
emergency_status_text EmergencyStatus.active = "ACTIVE"
emergency_status_text EmergencyStatus.acknowledged = "ACKNOWLEDGED"
emergency_status_text EmergencyStatus.responding = "RESPONDING"
emergency_status_text EmergencyStatus.resolved = "RESOLVED"
emergency_status_text EmergencyStatus.false_alarm = "FALSE_ALARM"

instance abbrev pub emergency_status_enum : Enum EmergencyStatus
emergency_status_enum = record { is = EmergencyStatus-discrete; text = emergency_status_text }
