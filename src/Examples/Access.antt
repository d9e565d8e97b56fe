-- ===== src/Examples/Access.antt =====
-- The contracts and the permission matrix at concrete requests.
use xygo_aec.Base.{
  String, true, [], ◌∷◌, none, some, ◌≡◌, ◌≢◌, ◌⊎◌, refl, arith, eq_iff, Value, str, obj, includes,
}
use xygo_aec.Contracts.{Membership}
use xygo_aec.Access.Policy.{AccessRequest, can_perform, resolve_role, listed_role}
use xygo_aec.Access.Policy.Isolation.{
  can_perform-tenant, can_perform-write, writer_roles, manager_roles,
}
use xygo_aec.Examples.Data.{text_object}

abbrev membership_request : Value
membership_request = obj (
    text_object (
      ("id", "m1")
      ∷ ("tenantId", "tenant-a")
      ∷ ("userId", "ana")
      ∷ ("departmentId", "d1")
      ∷ ("teamId", "t1")
      ∷ ("organizationRole", "employee")
      ∷ []))

abbrev membership : Membership
membership = record {
  id = "m1";
  tenant_id = "tenant-a";
  user_id = "ana";
  department_id = "d1";
  team_id = "t1";
  organization_role = str "employee";
  staged = true;
}

abbrev report_update : AccessRequest
report_update = record {
  resource = "field_report";
  action = "update";
  tenant_id = "tenant-a";
  resource_tenant_id = "tenant-a";
  organization_role = "client_staff";
  project_role = none;
  visibility_class = none;
}

report_update_allowed : (can_perform report_update).allowed ≡ true
unfolding can_perform resolve_role xygo_aec.Access.Policy.Matrix.allow_matrix
report_update_allowed = refl

can_perform-tenant_example : report_update.tenant_id ≡ report_update.resource_tenant_id
can_perform-tenant_example = can_perform-tenant report_update report_update_allowed

update_not_read : ◌≢◌ {A = String} "update" "read"
update_not_read = ground (arith, eq_iff "update" "read")

can_perform-write_example :
    (includes writer_roles (resolve_role "client_staff") ≡ true)
    ⊎ (listed_role (some manager_roles) none ≡ true)
can_perform-write_example = can_perform-write report_update report_update_allowed update_not_read

abbrev portal_read : AccessRequest
portal_read = record report_update {
  resource = "client_portal";
  action = "read";
  organization_role = "client_viewer";
}

portal_read_allowed : (can_perform portal_read).allowed ≡ true
unfolding can_perform resolve_role xygo_aec.Access.Policy.Matrix.allow_matrix
portal_read_allowed = refl
