-- ===== src/Contracts.antt =====
-- packages/shared-contracts/src/foundation.js: the tenant, organisation and project records, and
-- the checks that their constructors make. `staged: true` is a field that every record has.
pub mod Acceptance
use xygo_aec.Base.{
  String, Bool, true, false, not, List, [], ◌∷◌, Option, none, some, Result, ok, ◌>>=◌, ◌>>◌,
  throw_if, throw, includes, ◌===◌, ◌||◌, ◌⧺◌, if◌then◌else◌, Value, str, member, is_true, truthy,
  ◌or_else◌, null, required_string, set_has, shown,
}

abbrev pub organization_roles : List String
organization_roles =
    "platform_admin" ∷ "company_admin" ∷ "executive" ∷ "department_head" ∷ "supervisor" ∷ "employee"
    ∷ "finance_reviewer" ∷ "legal_reviewer" ∷ "compliance_reviewer" ∷ "external_collaborator"
    ∷ "read_only_auditor" ∷ []

abbrev pub project_roles : List String
project_roles =
    "project_executive" ∷ "project_manager" ∷ "design_manager" ∷ "bim_vdc_manager"
    ∷ "discipline_lead" ∷ "designer" ∷ "engineer" ∷ "coordinator" ∷ "document_controller"
    ∷ "permit_coordinator" ∷ "superintendent" ∷ "field_user" ∷ "cost_reviewer" ∷ "approver"
    ∷ "viewer" ∷ []

unfoldable pub assert_staged : Value → Result (Unit {0})
assert_staged input =
    throw_if (not (is_true (member input "staged")))
      "Synthetic staged entities must set staged=true."

pub record Tenant : Type 0 where
  pub id : String
  pub name : String
  pub staged : Bool
  pub status : Value
  pub created_at : Value

-- `now` is the text that `new Date().toISOString()` gives.
pub create_tenant : String → Value → Result Tenant
unfolding assert_staged
create_tenant now input = do
  id ← required_string (member input "id") "Tenant id"
  name ← required_string (member input "name") "Tenant name"
  assert_staged input
  ok (record {
    id = id;
    name = name;
    staged = true;
    status = member input "status" or_else str "active";
    created_at = member input "createdAt" or_else str now;
  })

pub record BusinessUnit : Type 0 where
  pub id : String
  pub tenant_id : String
  pub name : String
  pub staged : Bool

pub create_business_unit : Value → Result BusinessUnit
unfolding assert_staged
create_business_unit input = do
  id ← required_string (member input "id") "Business unit id"
  tenant_id ← required_string (member input "tenantId") "Business unit tenantId"
  name ← required_string (member input "name") "Business unit name"
  assert_staged input
  ok (record { id = id; tenant_id = tenant_id; name = name; staged = true })

pub record Department : Type 0 where
  pub id : String
  pub tenant_id : String
  pub business_unit_id : String
  pub name : String
  pub code : Value
  pub staged : Bool

pub create_department : Value → Result Department
unfolding assert_staged
create_department input = do
  id ← required_string (member input "id") "Department id"
  tenant_id ← required_string (member input "tenantId") "Department tenantId"
  business_unit_id ← required_string (member input "businessUnitId") "Department businessUnitId"
  name ← required_string (member input "name") "Department name"
  assert_staged input
  ok (record {
    id = id;
    tenant_id = tenant_id;
    business_unit_id = business_unit_id;
    name = name;
    code = member input "code" or_else null;
    staged = true;
  })

pub record Team : Type 0 where
  pub id : String
  pub tenant_id : String
  pub department_id : String
  pub name : String
  pub staged : Bool

pub create_team : Value → Result Team
unfolding assert_staged
create_team input = do
  id ← required_string (member input "id") "Team id"
  tenant_id ← required_string (member input "tenantId") "Team tenantId"
  department_id ← required_string (member input "departmentId") "Team departmentId"
  name ← required_string (member input "name") "Team name"
  assert_staged input
  ok (record {
    id = id;
    tenant_id = tenant_id;
    department_id = department_id;
    name = name;
    staged = true;
  })

pub record User : Type 0 where
  pub id : String
  pub tenant_id : String
  pub email : String
  pub display_name : String
  pub staged : Bool
  pub status : Value

pub create_user : Value → Result User
unfolding assert_staged
create_user input = do
  id ← required_string (member input "id") "User id"
  tenant_id ← required_string (member input "tenantId") "User tenantId"
  email ← required_string (member input "email") "User email"
  display_name ← required_string (member input "displayName") "User displayName"
  assert_staged input
  ok (record {
    id = id;
    tenant_id = tenant_id;
    email = email;
    display_name = display_name;
    staged = true;
    status = member input "status" or_else str "active";
  })

pub record Membership : Type 0 where
  pub id : String
  pub tenant_id : String
  pub user_id : String
  pub department_id : String
  pub team_id : String
  pub organization_role : Value
  pub staged : Bool

unfoldable pub create_membership : Value → Result Membership
unfolding assert_staged
create_membership input = do
  id ← required_string (member input "id") "Membership id"
  tenant_id ← required_string (member input "tenantId") "Membership tenantId"
  user_id ← required_string (member input "userId") "Membership userId"
  department_id ← required_string (member input "departmentId") "Membership departmentId"
  team_id ← required_string (member input "teamId") "Membership teamId"
  assert_staged input
  let role = member input "organizationRole"
  throw_if (not (set_has organization_roles role)) ("Unknown organization role: " ⧺ shown role)
  ok (record {
    id = id;
    tenant_id = tenant_id;
    user_id = user_id;
    department_id = department_id;
    team_id = team_id;
    organization_role = role;
    staged = true;
  })

pub record Project : Type 0 where
  pub id : String
  pub tenant_id : String
  pub name : String
  pub project_type : Value
  pub status : Value
  pub staged : Bool

unfoldable pub create_project : Value → Result Project
unfolding assert_staged
create_project input = do
  id ← required_string (member input "id") "Project id"
  tenant_id ← required_string (member input "tenantId") "Project tenantId"
  name ← required_string (member input "name") "Project name"
  assert_staged input
  ok (record {
    id = id;
    tenant_id = tenant_id;
    name = name;
    project_type = member input "projectType" or_else str "commercial";
    status = member input "status" or_else str "draft";
    staged = true;
  })

pub record ProjectParticipant : Type 0 where
  pub id : String
  pub tenant_id : String
  pub project_id : String
  pub user_id : String
  pub project_role : Value
  pub staged : Bool

unfoldable pub create_project_participant : Value → Result ProjectParticipant
unfolding assert_staged
create_project_participant input = do
  id ← required_string (member input "id") "Project participant id"
  tenant_id ← required_string (member input "tenantId") "Project participant tenantId"
  project_id ← required_string (member input "projectId") "Project participant projectId"
  user_id ← required_string (member input "userId") "Project participant userId"
  assert_staged input
  let role = member input "projectRole"
  throw_if (not (set_has project_roles role)) ("Unknown project role: " ⧺ shown role)
  ok (record {
    id = id;
    tenant_id = tenant_id;
    project_id = project_id;
    user_id = user_id;
    project_role = role;
    staged = true;
  })

-- What `assertSameTenant` reads of a record, or `none` for `null` and `undefined`.
pub record Owned : Type 0 where
  pub tenant_id : Option String
  pub id : String

abbrev pub owner : Owned → String
owner r = elim r.tenant_id [ none ↦ r.id | some t ↦ t ]

add_owner : String → List String → List String
add_owner t ts = if includes ts t then ts else t ∷ ts

-- The members of the Set of owners. Their order is not read.
tenant_ids : List (Option Owned) → List String
unfolding add_owner
tenant_ids [] = []
tenant_ids (none ∷ rs) = tenant_ids rs
tenant_ids (some r ∷ rs) = add_owner (owner r) (tenant_ids rs)

abbrev more_than_one : List String → Bool
more_than_one [] = false
more_than_one (t ∷ []) = false
more_than_one (t ∷ u ∷ ts) = true

unfoldable pub assert_same_tenant : List (Option Owned) → Result (Unit {0})
unfolding tenant_ids
assert_same_tenant records =
    throw_if (more_than_one (tenant_ids records)) "Cross-tenant combination rejected."
