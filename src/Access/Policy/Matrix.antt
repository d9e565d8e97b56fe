-- ===== src/Access/Policy/Matrix.antt =====
-- ALLOW_MATRIX of packages/authorization/src/policy.js.
use xygo_aec.Base.{
  String, List, [], ◌∷◌, ◌++◌, map, Option, none, some, includes, ◌===◌, ◌||◌, if◌then◌else◌,
}

pub record Rule : Type 0 where
  pub resource : String
  pub action : String
  pub organization_roles : Option (List String)
  pub project_roles : Option (List String)
  pub visibility_classes : Option (List String)

abbrev rule : String → String → List String → List String → Rule
rule resource action roles project_roles = record {
  resource = resource;
  action = action;
  organization_roles = some roles;
  project_roles = some project_roles;
  visibility_classes = none;
}

-- A rule with no `projectRoles`.
abbrev rule_of_organization : String → String → List String → Rule
rule_of_organization resource action roles = record {
  resource = resource;
  action = action;
  organization_roles = some roles;
  project_roles = none;
  visibility_classes = none;
}

abbrev readers : List String
readers = "project_executive" ∷ "project_manager" ∷ "design_manager" ∷ "viewer" ∷ []

abbrev managers : List String
managers = "project_manager" ∷ "design_manager" ∷ []

abbrev admins : List String
admins = "platform_admin" ∷ "company_admin" ∷ []

abbrev staff_writers : List String
staff_writers = "platform_admin" ∷ "company_admin" ∷ "client_staff" ∷ []

abbrev extra_readers : String → List String
extra_readers resource =
    if resource === "field_report"
    then "client_staff" ∷ []
    else if (resource === "file_record") || (resource === "client_portal")
    then "client_staff" ∷ "client_viewer" ∷ []
    else []

abbrev read_rule : String → Rule
read_rule resource =
    rule resource "read"
      ("platform_admin"
        ∷ "company_admin"
        ∷ "executive"
        ∷ "supervisor"
        ∷ "read_only_auditor"
        ∷ extra_readers resource)
      readers

abbrev create_rule : String → Rule
create_rule resource =
    rule resource "create"
      (if includes ("field_report" ∷ "file_record" ∷ []) resource then staff_writers else admins)
      managers

abbrev readable_resources : List String
readable_resources =
    "coordination_issue" ∷ "rfi" ∷ "permit_package" ∷ "review_session" ∷ "ai_review_run"
    ∷ "ai_finding" ∷ "executive_dashboard" ∷ "audit_event" ∷ "transfer" ∷ "platform_blueprint"
    ∷ "field_report" ∷ "file_record" ∷ "email_delivery" ∷ "client_portal" ∷ []

abbrev creatable_resources : List String
creatable_resources =
    "coordination_issue" ∷ "rfi" ∷ "permit_package" ∷ "review_session" ∷ "ai_review_run"
    ∷ "ai_finding" ∷ "platform_blueprint" ∷ "field_report" ∷ "file_record" ∷ []

abbrev first_rules : List Rule
first_rules =
    rule_of_organization "tenant" "read"
      ("platform_admin" ∷ "company_admin" ∷ "executive" ∷ "read_only_auditor" ∷ [])
    ∷ rule_of_organization "department" "read"
        ("platform_admin" ∷ "company_admin" ∷ "executive" ∷ "department_head" ∷ "supervisor" ∷ [])
    ∷ rule "project" "read"
        ("platform_admin" ∷ "company_admin" ∷ "executive" ∷ "supervisor" ∷ "read_only_auditor"
          ∷ "client_staff" ∷ "client_viewer" ∷ [])
        readers
    ∷ rule "project" "update" admins managers
    ∷ record {
      resource = "channel";
      action = "read";
      organization_roles =
          some ("platform_admin" ∷ "company_admin" ∷ "supervisor" ∷ "employee" ∷ []);
      project_roles = none;
      visibility_classes = some (
          "participant_only" ∷ "team_only" ∷ "department_only" ∷ "project_only"
          ∷ "company_public_summary" ∷ []);
    }
    ∷ rule_of_organization "announcement_channel" "publish"
        ("platform_admin" ∷ "company_admin" ∷ "executive" ∷ [])
    ∷ []

abbrev last_rules : List Rule
last_rules =
    rule "field_report" "update" staff_writers managers
    ∷ rule "file_record" "update" staff_writers managers
    ∷ rule "file_record" "delete" staff_writers managers
    ∷ rule_of_organization "project" "create" admins
    ∷ rule "ai_finding" "update" admins managers
    ∷ []

unfoldable pub allow_matrix : List Rule
allow_matrix =
    first_rules
    ++ (map read_rule readable_resources ++ (map create_rule creatable_resources ++ last_rules))
