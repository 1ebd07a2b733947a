-- ===== src/Permissions/Policies.antt =====
-- packages/permissions/src/policies.ts: what each role grants.
pub mod Laws
use manglam_balaji_managemen.Permissions.Catalog.{
  RoleName, PermissionScopeKind, PermissionScopeKind-discrete, PermissionAction,
  PermissionAction-discrete,
}
use manglam_balaji_managemen.Js.Sets.{add_all}
use manglam_balaji_managemen.Prelude.{List, [], ◌∷◌, ◌++◌, same, if◌then◌else◌, true, false}

-- `Partial<Record<PermissionAction, readonly PermissionScopeKind[]>>`, as its entries.
abbrev pub RolePolicy : Type 0
RolePolicy = List (PermissionAction × List PermissionScopeKind)

-- `policy[action] ?? []`
unfoldable pub scopes_of : RolePolicy → PermissionAction → List PermissionScopeKind
scopes_of [] action = []
scopes_of ((a, scopes) ∷ rest) action =
    if same PermissionAction-discrete a action then scopes else scopes_of rest action

-- `policy[action] = scopes`
set_scopes : RolePolicy → PermissionAction → List PermissionScopeKind → RolePolicy
set_scopes [] action scopes = (action, scopes) ∷ []
set_scopes ((a, old) ∷ rest) action scopes =
    if same PermissionAction-discrete a action
    then (a, scopes) ∷ rest
    else (a, old) ∷ set_scopes rest action scopes

-- `Object.fromEntries(actions.map((action) => [action, [scope]]))`, from the entries given so far.
grant_from : RolePolicy → PermissionScopeKind → List PermissionAction → RolePolicy
grant_from policy scope [] = policy
grant_from policy scope (action ∷ actions) =
    grant_from (set_scopes policy action (scope ∷ [])) scope actions

grant : PermissionScopeKind → List PermissionAction → RolePolicy
grant scope actions = grant_from [] scope actions

-- `new Set([...(merged[action] ?? []), ...scopes])`
distinct : List PermissionScopeKind → List PermissionScopeKind
distinct scopes = add_all (same PermissionScopeKind-discrete) [] scopes

-- The loops of `merge`, over the policies and over the entries of each.
merge_entries : RolePolicy → RolePolicy → RolePolicy
merge_entries merged [] = merged
merge_entries merged ((action, scopes) ∷ entries) =
    merge_entries (set_scopes merged action (distinct (scopes_of merged action ++ scopes))) entries

merge_from : RolePolicy → List RolePolicy → RolePolicy
merge_from merged [] = merged
merge_from merged (policy ∷ policies) = merge_from (merge_entries merged policy) policies

merge : List RolePolicy → RolePolicy
merge policies = merge_from [] policies

self_policy : RolePolicy
self_policy =
    (grant PermissionScopeKind.self (
      PermissionAction.account_read_self ∷ PermissionAction.account_manage_self
      ∷ PermissionAction.session_read_self ∷ PermissionAction.session_revoke_self
      ∷ PermissionAction.membership_request ∷ PermissionAction.notification_read_self
      ∷ PermissionAction.notification_manage_preferences ∷ []))

resident_read_policy : RolePolicy
resident_read_policy = merge (
    (grant PermissionScopeKind.active_flat (
      PermissionAction.membership_read_flat ∷ PermissionAction.visitor_preapprove
      ∷ PermissionAction.visitor_cancel_preapproval ∷ PermissionAction.visitor_read_flat
      ∷ PermissionAction.visitor_approve ∷ PermissionAction.visitor_reject
      ∷ PermissionAction.daily_help_read_flat ∷ PermissionAction.parcel_read_flat
      ∷ PermissionAction.parcel_decide ∷ PermissionAction.complaint_create
      ∷ PermissionAction.complaint_read_flat ∷ PermissionAction.complaint_comment
      ∷ PermissionAction.complaint_reopen ∷ PermissionAction.complaint_cancel
      ∷ PermissionAction.dues_read_flat ∷ PermissionAction.payment_read_flat
      ∷ PermissionAction.receipt_read_flat ∷ PermissionAction.emergency_create
      ∷ PermissionAction.file_upload ∷ PermissionAction.file_download ∷ []))
    ∷ (grant PermissionScopeKind.targeted (
        PermissionAction.notice_read ∷ PermissionAction.notice_acknowledge
        ∷ PermissionAction.file_download ∷ []))
    ∷ [])

resident_manager_policy : RolePolicy
resident_manager_policy =
    (grant PermissionScopeKind.active_flat (
      PermissionAction.membership_manage_flat ∷ PermissionAction.membership_end
      ∷ PermissionAction.daily_help_manage_assignment ∷ []))

guard_policy : RolePolicy
guard_policy = merge (
    self_policy
    ∷ (grant PermissionScopeKind.assigned_gate (
        PermissionAction.resident_directory_gate ∷ PermissionAction.guard_read_gate
        ∷ PermissionAction.visitor_create_request ∷ PermissionAction.visitor_read_gate
        ∷ PermissionAction.visitor_check_in ∷ PermissionAction.visitor_check_out
        ∷ PermissionAction.daily_help_read_gate ∷ PermissionAction.daily_help_attendance
        ∷ PermissionAction.parcel_read_gate ∷ PermissionAction.parcel_record
        ∷ PermissionAction.parcel_collect ∷ PermissionAction.parcel_return
        ∷ PermissionAction.emergency_read_active ∷ PermissionAction.emergency_acknowledge
        ∷ PermissionAction.emergency_respond ∷ PermissionAction.file_upload
        ∷ PermissionAction.file_download ∷ []))
    ∷ [])

society_admin_actions : List PermissionAction
society_admin_actions =
    PermissionAction.society_read ∷ PermissionAction.society_manage
    ∷ PermissionAction.membership_read_flat ∷ PermissionAction.membership_manage_flat
    ∷ PermissionAction.membership_approve ∷ PermissionAction.membership_reject
    ∷ PermissionAction.membership_suspend ∷ PermissionAction.membership_end
    ∷ PermissionAction.resident_directory_gate ∷ PermissionAction.resident_read_all
    ∷ PermissionAction.guard_read_gate ∷ PermissionAction.guard_manage
    ∷ PermissionAction.guard_device_enroll ∷ PermissionAction.guard_device_revoke
    ∷ PermissionAction.visitor_read_all ∷ PermissionAction.visitor_check_in
    ∷ PermissionAction.visitor_check_out ∷ PermissionAction.visitor_override
    ∷ PermissionAction.daily_help_manage_assignment ∷ PermissionAction.daily_help_manage
    ∷ PermissionAction.daily_help_attendance ∷ PermissionAction.parcel_record
    ∷ PermissionAction.parcel_collect ∷ PermissionAction.parcel_return
    ∷ PermissionAction.parcel_read_all ∷ PermissionAction.notice_read
    ∷ PermissionAction.notice_create ∷ PermissionAction.notice_publish
    ∷ PermissionAction.notice_manage ∷ PermissionAction.complaint_read_all
    ∷ PermissionAction.complaint_comment ∷ PermissionAction.complaint_assign
    ∷ PermissionAction.complaint_update ∷ PermissionAction.complaint_internal_note
    ∷ PermissionAction.complaint_resolve ∷ PermissionAction.complaint_cancel
    ∷ PermissionAction.dues_read_all ∷ PermissionAction.dues_manage
    ∷ PermissionAction.payment_record ∷ PermissionAction.payment_read_all
    ∷ PermissionAction.payment_reverse ∷ PermissionAction.receipt_generate
    ∷ PermissionAction.receipt_read_all ∷ PermissionAction.receipt_void
    ∷ PermissionAction.emergency_read_active ∷ PermissionAction.emergency_acknowledge
    ∷ PermissionAction.emergency_respond ∷ PermissionAction.emergency_resolve
    ∷ PermissionAction.notification_diagnostics ∷ PermissionAction.file_upload
    ∷ PermissionAction.file_download ∷ PermissionAction.role_read ∷ PermissionAction.role_manage
    ∷ PermissionAction.audit_read ∷ PermissionAction.report_export ∷ []

unfoldable pub role_policies : RoleName → RolePolicy
unfolding set_scopes grant grant_from distinct merge merge_from merge_entries scopes_of self_policy
    resident_read_policy resident_manager_policy guard_policy society_admin_actions
role_policies RoleName.resident_owner =
    merge (self_policy ∷ resident_read_policy ∷ resident_manager_policy ∷ [])
role_policies RoleName.resident_tenant =
    merge (self_policy ∷ resident_read_policy ∷ resident_manager_policy ∷ [])
role_policies RoleName.resident_family = merge (self_policy ∷ resident_read_policy ∷ [])
role_policies RoleName.guard = guard_policy
role_policies RoleName.security_supervisor = merge (
    guard_policy
    ∷ (grant PermissionScopeKind.assigned_gate (
        PermissionAction.visitor_override ∷ PermissionAction.guard_device_enroll
        ∷ PermissionAction.guard_device_revoke ∷ PermissionAction.emergency_resolve
        ∷ PermissionAction.audit_read ∷ PermissionAction.report_export ∷ []))
    ∷ [])
role_policies RoleName.complaint_staff = merge (
    self_policy
    ∷ (grant PermissionScopeKind.assigned_complaint (
        PermissionAction.complaint_read_assigned ∷ PermissionAction.complaint_comment
        ∷ PermissionAction.complaint_update ∷ PermissionAction.complaint_internal_note
        ∷ PermissionAction.complaint_resolve ∷ PermissionAction.file_upload
        ∷ PermissionAction.file_download ∷ []))
    ∷ [])
role_policies RoleName.accountant = merge (
    self_policy
    ∷ (grant PermissionScopeKind.society (
        PermissionAction.society_read ∷ PermissionAction.dues_read_all
        ∷ PermissionAction.dues_manage ∷ PermissionAction.payment_record
        ∷ PermissionAction.payment_read_all ∷ PermissionAction.receipt_generate
        ∷ PermissionAction.receipt_read_all ∷ PermissionAction.report_export ∷ []))
    ∷ [])
role_policies RoleName.society_admin =
    merge (self_policy ∷ grant PermissionScopeKind.society society_admin_actions ∷ [])
role_policies RoleName.super_admin =
    merge (self_policy ∷ grant PermissionScopeKind.society society_admin_actions ∷ [])
