-- ===== src/Permissions/Catalog.antt =====
-- packages/permissions/src/catalog.ts: the roles, the scopes and the catalogue of permissions.
use manglam_balaji_managemen.Prelude.{Bool, true, false, List, [], ◌∷◌}

pub data RoleName : Type 0 where
  resident_owner resident_tenant resident_family guard security_supervisor complaint_staff :
      RoleName
  accountant society_admin super_admin : RoleName

unfoldable pub RoleName-discrete : Discrete RoleName
RoleName-discrete = hlevel

pub data PermissionScopeKind : Type 0 where
  self active_flat assigned_gate assigned_complaint targeted society : PermissionScopeKind

unfoldable pub PermissionScopeKind-discrete : Discrete PermissionScopeKind
PermissionScopeKind-discrete = hlevel

-- The actions, with `_` where the program writes a dot.
pub data PermissionAction : Type 0 where
  account_read_self account_manage_self session_read_self session_revoke_self society_read :
      PermissionAction
  society_manage membership_request membership_read_flat membership_manage_flat : PermissionAction
  membership_approve membership_reject membership_suspend membership_end : PermissionAction
  resident_directory_gate resident_read_all guard_read_gate guard_manage guard_device_enroll :
      PermissionAction
  guard_device_revoke visitor_preapprove visitor_cancel_preapproval visitor_create_request :
      PermissionAction
  visitor_read_flat visitor_read_gate visitor_read_all visitor_approve visitor_reject :
      PermissionAction
  visitor_check_in visitor_check_out visitor_override daily_help_read_flat : PermissionAction
  daily_help_manage_assignment daily_help_read_gate daily_help_manage daily_help_attendance :
      PermissionAction
  parcel_read_flat parcel_decide parcel_read_gate parcel_record parcel_collect parcel_return :
      PermissionAction
  parcel_read_all notice_read notice_acknowledge notice_create notice_publish notice_manage :
      PermissionAction
  complaint_create complaint_read_flat complaint_read_assigned complaint_read_all : PermissionAction
  complaint_comment complaint_assign complaint_update complaint_internal_note : PermissionAction
  complaint_resolve complaint_reopen complaint_cancel dues_read_flat dues_read_all :
      PermissionAction
  dues_manage payment_record payment_read_flat payment_read_all payment_reverse : PermissionAction
  receipt_generate receipt_read_flat receipt_read_all receipt_void emergency_create :
      PermissionAction
  emergency_read_active emergency_acknowledge emergency_respond emergency_resolve : PermissionAction
  notification_read_self notification_manage_preferences notification_diagnostics file_upload :
      PermissionAction
  file_download role_read role_manage audit_read report_export : PermissionAction

unfoldable pub PermissionAction-discrete : Discrete PermissionAction
PermissionAction-discrete = hlevel

-- What the catalogue says of an action. An absent flag is false.
pub record PermissionDefinition : Type 0 where
  pub scopes : List PermissionScopeKind
  pub requires_recent_authentication : Bool
  pub requires_reason : Bool

permission : Bool → Bool → List PermissionScopeKind → PermissionDefinition
permission recent reason scopes = record {
  scopes = scopes;
  requires_recent_authentication = recent;
  requires_reason = reason;
}

-- `PERMISSION_BY_ACTION`: the catalogue has one entry for each action.
unfoldable pub permission_by_action : PermissionAction → PermissionDefinition
unfolding permission
permission_by_action account_read_self = permission false false (self ∷ [])
permission_by_action account_manage_self = permission false false (self ∷ [])
permission_by_action session_read_self = permission false false (self ∷ [])
permission_by_action session_revoke_self = permission false false (self ∷ [])
permission_by_action society_read = permission false false (society ∷ [])
permission_by_action society_manage = permission false false (society ∷ [])
permission_by_action membership_request = permission false false (self ∷ [])
permission_by_action membership_read_flat = permission false false (active_flat ∷ society ∷ [])
permission_by_action membership_manage_flat = permission false false (active_flat ∷ society ∷ [])
permission_by_action membership_approve = permission false false (society ∷ [])
permission_by_action membership_reject = permission false true (society ∷ [])
permission_by_action membership_suspend = permission false true (society ∷ [])
permission_by_action membership_end = permission false true (active_flat ∷ society ∷ [])
permission_by_action resident_directory_gate = permission false false (assigned_gate ∷ society ∷ [])
permission_by_action resident_read_all = permission false false (society ∷ [])
permission_by_action guard_read_gate = permission false false (assigned_gate ∷ society ∷ [])
permission_by_action guard_manage = permission false false (society ∷ [])
permission_by_action guard_device_enroll = permission false false (assigned_gate ∷ society ∷ [])
permission_by_action guard_device_revoke = permission false true (assigned_gate ∷ society ∷ [])
permission_by_action visitor_preapprove = permission false false (active_flat ∷ [])
permission_by_action visitor_cancel_preapproval = permission false false (active_flat ∷ [])
permission_by_action visitor_create_request = permission false false (assigned_gate ∷ [])
permission_by_action visitor_read_flat = permission false false (active_flat ∷ [])
permission_by_action visitor_read_gate = permission false false (assigned_gate ∷ [])
permission_by_action visitor_read_all = permission false false (society ∷ [])
permission_by_action visitor_approve = permission false false (active_flat ∷ [])
permission_by_action visitor_reject = permission false false (active_flat ∷ [])
permission_by_action visitor_check_in = permission false false (assigned_gate ∷ society ∷ [])
permission_by_action visitor_check_out = permission false false (assigned_gate ∷ society ∷ [])
permission_by_action visitor_override = permission true true (assigned_gate ∷ society ∷ [])
permission_by_action daily_help_read_flat = permission false false (active_flat ∷ [])
permission_by_action daily_help_manage_assignment =
    permission false false (active_flat ∷ society ∷ [])
permission_by_action daily_help_read_gate = permission false false (assigned_gate ∷ [])
permission_by_action daily_help_manage = permission false false (society ∷ [])
permission_by_action daily_help_attendance = permission false false (assigned_gate ∷ society ∷ [])
permission_by_action parcel_read_flat = permission false false (active_flat ∷ [])
permission_by_action parcel_decide = permission false false (active_flat ∷ [])
permission_by_action parcel_read_gate = permission false false (assigned_gate ∷ [])
permission_by_action parcel_record = permission false false (assigned_gate ∷ society ∷ [])
permission_by_action parcel_collect = permission false false (assigned_gate ∷ society ∷ [])
permission_by_action parcel_return = permission false true (assigned_gate ∷ society ∷ [])
permission_by_action parcel_read_all = permission false false (society ∷ [])
permission_by_action notice_read = permission false false (targeted ∷ society ∷ [])
permission_by_action notice_acknowledge = permission false false (targeted ∷ [])
permission_by_action notice_create = permission false false (society ∷ [])
permission_by_action notice_publish = permission false false (society ∷ [])
permission_by_action notice_manage = permission false false (society ∷ [])
permission_by_action complaint_create = permission false false (active_flat ∷ [])
permission_by_action complaint_read_flat = permission false false (active_flat ∷ [])
permission_by_action complaint_read_assigned = permission false false (assigned_complaint ∷ [])
permission_by_action complaint_read_all = permission false false (society ∷ [])
permission_by_action complaint_comment =
    permission false false (active_flat ∷ assigned_complaint ∷ society ∷ [])
permission_by_action complaint_assign = permission false false (society ∷ [])
permission_by_action complaint_update = permission false false (assigned_complaint ∷ society ∷ [])
permission_by_action complaint_internal_note =
    permission false false (assigned_complaint ∷ society ∷ [])
permission_by_action complaint_resolve = permission false false (assigned_complaint ∷ society ∷ [])
permission_by_action complaint_reopen = permission false false (active_flat ∷ [])
permission_by_action complaint_cancel = permission false true (active_flat ∷ society ∷ [])
permission_by_action dues_read_flat = permission false false (active_flat ∷ [])
permission_by_action dues_read_all = permission false false (society ∷ [])
permission_by_action dues_manage = permission false false (society ∷ [])
permission_by_action payment_record = permission false false (society ∷ [])
permission_by_action payment_read_flat = permission false false (active_flat ∷ [])
permission_by_action payment_read_all = permission false false (society ∷ [])
permission_by_action payment_reverse = permission true true (society ∷ [])
permission_by_action receipt_generate = permission false false (society ∷ [])
permission_by_action receipt_read_flat = permission false false (active_flat ∷ [])
permission_by_action receipt_read_all = permission false false (society ∷ [])
permission_by_action receipt_void = permission true true (society ∷ [])
permission_by_action emergency_create = permission false false (active_flat ∷ [])
permission_by_action emergency_read_active = permission false false (assigned_gate ∷ society ∷ [])
permission_by_action emergency_acknowledge = permission false false (assigned_gate ∷ society ∷ [])
permission_by_action emergency_respond = permission false false (assigned_gate ∷ society ∷ [])
permission_by_action emergency_resolve = permission false true (assigned_gate ∷ society ∷ [])
permission_by_action notification_read_self = permission false false (self ∷ [])
permission_by_action notification_manage_preferences = permission false false (self ∷ [])
permission_by_action notification_diagnostics = permission false false (society ∷ [])
permission_by_action file_upload =
    permission false false (active_flat ∷ assigned_gate ∷ assigned_complaint ∷ society ∷ [])
permission_by_action file_download =
    permission false false
      (active_flat ∷ assigned_gate ∷ assigned_complaint ∷ targeted ∷ society ∷ [])
permission_by_action role_read = permission false false (society ∷ [])
permission_by_action role_manage = permission true true (society ∷ [])
permission_by_action audit_read = permission false false (assigned_gate ∷ society ∷ [])
permission_by_action report_export = permission false false (assigned_gate ∷ society ∷ [])

-- `PERMISSION_ACTIONS`
unfoldable pub permission_actions : List PermissionAction
permission_actions =
    account_read_self ∷ account_manage_self ∷ session_read_self ∷ session_revoke_self ∷ society_read
    ∷ society_manage ∷ membership_request ∷ membership_read_flat ∷ membership_manage_flat
    ∷ membership_approve ∷ membership_reject ∷ membership_suspend ∷ membership_end
    ∷ resident_directory_gate ∷ resident_read_all ∷ guard_read_gate ∷ guard_manage
    ∷ guard_device_enroll ∷ guard_device_revoke ∷ visitor_preapprove ∷ visitor_cancel_preapproval
    ∷ visitor_create_request ∷ visitor_read_flat ∷ visitor_read_gate ∷ visitor_read_all
    ∷ visitor_approve ∷ visitor_reject ∷ visitor_check_in ∷ visitor_check_out ∷ visitor_override
    ∷ daily_help_read_flat ∷ daily_help_manage_assignment ∷ daily_help_read_gate ∷ daily_help_manage
    ∷ daily_help_attendance ∷ parcel_read_flat ∷ parcel_decide ∷ parcel_read_gate ∷ parcel_record
    ∷ parcel_collect ∷ parcel_return ∷ parcel_read_all ∷ notice_read ∷ notice_acknowledge
    ∷ notice_create ∷ notice_publish ∷ notice_manage ∷ complaint_create ∷ complaint_read_flat
    ∷ complaint_read_assigned ∷ complaint_read_all ∷ complaint_comment ∷ complaint_assign
    ∷ complaint_update ∷ complaint_internal_note ∷ complaint_resolve ∷ complaint_reopen
    ∷ complaint_cancel ∷ dues_read_flat ∷ dues_read_all ∷ dues_manage ∷ payment_record
    ∷ payment_read_flat ∷ payment_read_all ∷ payment_reverse ∷ receipt_generate ∷ receipt_read_flat
    ∷ receipt_read_all ∷ receipt_void ∷ emergency_create ∷ emergency_read_active
    ∷ emergency_acknowledge ∷ emergency_respond ∷ emergency_resolve ∷ notification_read_self
    ∷ notification_manage_preferences ∷ notification_diagnostics ∷ file_upload ∷ file_download
    ∷ role_read ∷ role_manage ∷ audit_read ∷ report_export ∷ []
