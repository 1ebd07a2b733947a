-- ===== src/Types/Enums/Platform.antt =====
-- packages/types/src/enums.ts: the states of devices, notifications, offline work and idempotency.
use manglam_balaji_managemen.Types.Enum.{Enum}
use manglam_balaji_managemen.Prelude.{String}

pub data DeviceStatus : Type 0 where
  pending active revoked lost : DeviceStatus

unfoldable pub DeviceStatus-discrete : Discrete DeviceStatus
DeviceStatus-discrete = hlevel

abbrev pub device_status_text : DeviceStatus → String
device_status_text DeviceStatus.pending = "PENDING"
device_status_text DeviceStatus.active = "ACTIVE"
device_status_text DeviceStatus.revoked = "REVOKED"
device_status_text DeviceStatus.lost = "LOST"

instance abbrev pub device_status_enum : Enum DeviceStatus
device_status_enum = record { is = DeviceStatus-discrete; text = device_status_text }

pub data NotificationCategory : Type 0 where
  security_critical visitor_approval visitor_activity emergency notice complaint payment general :
      NotificationCategory

unfoldable pub NotificationCategory-discrete : Discrete NotificationCategory
NotificationCategory-discrete = hlevel

abbrev pub notification_category_text : NotificationCategory → String
notification_category_text NotificationCategory.security_critical = "SECURITY_CRITICAL"
notification_category_text NotificationCategory.visitor_approval = "VISITOR_APPROVAL"
notification_category_text NotificationCategory.visitor_activity = "VISITOR_ACTIVITY"
notification_category_text NotificationCategory.emergency = "EMERGENCY"
notification_category_text NotificationCategory.notice = "NOTICE"
notification_category_text NotificationCategory.complaint = "COMPLAINT"
notification_category_text NotificationCategory.payment = "PAYMENT"
notification_category_text NotificationCategory.general = "GENERAL"

instance abbrev pub notification_category_enum : Enum NotificationCategory
notification_category_enum = record {
  is = NotificationCategory-discrete;
  text = notification_category_text;
}

pub data NotificationChannel : Type 0 where
  in_app push realtime sms : NotificationChannel

unfoldable pub NotificationChannel-discrete : Discrete NotificationChannel
NotificationChannel-discrete = hlevel

abbrev pub notification_channel_text : NotificationChannel → String
notification_channel_text NotificationChannel.in_app = "IN_APP"
notification_channel_text NotificationChannel.push = "PUSH"
notification_channel_text NotificationChannel.realtime = "REALTIME"
notification_channel_text NotificationChannel.sms = "SMS"

instance abbrev pub notification_channel_enum : Enum NotificationChannel
notification_channel_enum = record {
  is = NotificationChannel-discrete;
  text = notification_channel_text;
}

pub data OfflineSyncStatus : Type 0 where
  local_pending syncing synced conflict failed : OfflineSyncStatus

unfoldable pub OfflineSyncStatus-discrete : Discrete OfflineSyncStatus
OfflineSyncStatus-discrete = hlevel

abbrev pub offline_sync_status_text : OfflineSyncStatus → String
offline_sync_status_text OfflineSyncStatus.local_pending = "LOCAL_PENDING"
offline_sync_status_text OfflineSyncStatus.syncing = "SYNCING"
offline_sync_status_text OfflineSyncStatus.synced = "SYNCED"
offline_sync_status_text OfflineSyncStatus.conflict = "CONFLICT"
offline_sync_status_text OfflineSyncStatus.failed = "FAILED"

instance abbrev pub offline_sync_status_enum : Enum OfflineSyncStatus
offline_sync_status_enum = record {
  is = OfflineSyncStatus-discrete;
  text = offline_sync_status_text;
}

pub data IdempotencyStatus : Type 0 where
  processing completed failed : IdempotencyStatus

unfoldable pub IdempotencyStatus-discrete : Discrete IdempotencyStatus
IdempotencyStatus-discrete = hlevel

abbrev pub idempotency_status_text : IdempotencyStatus → String
idempotency_status_text IdempotencyStatus.processing = "PROCESSING"
idempotency_status_text IdempotencyStatus.completed = "COMPLETED"
idempotency_status_text IdempotencyStatus.failed = "FAILED"

instance abbrev pub idempotency_status_enum : Enum IdempotencyStatus
idempotency_status_enum = record { is = IdempotencyStatus-discrete; text = idempotency_status_text }

pub data OfflineMutationOperation : Type 0 where
  visit_prepare visit_manual_entry visit_check_out daily_help_check_in daily_help_check_out
        emergency_acknowledge resident_visitor_approval :
      OfflineMutationOperation

unfoldable pub OfflineMutationOperation-discrete : Discrete OfflineMutationOperation
OfflineMutationOperation-discrete = hlevel

abbrev pub offline_mutation_operation_text : OfflineMutationOperation → String
offline_mutation_operation_text OfflineMutationOperation.visit_prepare = "VISIT_PREPARE"
offline_mutation_operation_text OfflineMutationOperation.visit_manual_entry = "VISIT_MANUAL_ENTRY"
offline_mutation_operation_text OfflineMutationOperation.visit_check_out = "VISIT_CHECK_OUT"
offline_mutation_operation_text OfflineMutationOperation.daily_help_check_in = "DAILY_HELP_CHECK_IN"
offline_mutation_operation_text OfflineMutationOperation.daily_help_check_out =
    "DAILY_HELP_CHECK_OUT"
offline_mutation_operation_text OfflineMutationOperation.emergency_acknowledge =
    "EMERGENCY_ACKNOWLEDGE"
offline_mutation_operation_text OfflineMutationOperation.resident_visitor_approval =
    "RESIDENT_VISITOR_APPROVAL"

instance abbrev pub offline_mutation_operation_enum : Enum OfflineMutationOperation
offline_mutation_operation_enum = record {
  is = OfflineMutationOperation-discrete;
  text = offline_mutation_operation_text;
}
