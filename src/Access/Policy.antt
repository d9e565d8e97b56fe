-- ===== src/Access/Policy.antt =====
-- packages/authorization/src/policy.js: the permission matrix and the decision over it.
pub mod Matrix
pub mod Isolation
use Matrix.{Rule, allow_matrix}
use xygo_aec.Base.{
  String, Bool, true, false, not, ◌&&◌, ◌||◌, List, Option, none, some, find, includes, ◌===◌,
  if◌then◌else◌,
}

-- The request of a decision; `none` is a value that is null or left out.
pub record AccessRequest : Type 0 where
  pub resource : String
  pub action : String
  pub tenant_id : String
  pub resource_tenant_id : String
  pub organization_role : String
  pub project_role : Option String
  pub visibility_class : Option String

pub record Decision : Type 0 where
  pub allowed : Bool
  pub reason : String

abbrev pub deny : String → Decision
deny reason = record { allowed = false; reason = reason }

abbrev pub allow : Decision
allow = record { allowed = true; reason = "allowed" }

-- `ORGANIZATION_ROLE_ALIASES[role] ?? role`
unfoldable pub resolve_role : String → String
resolve_role role =
    if role === "xygo_admin"
    then "platform_admin"
    else if role === "client_owner"
    then "company_admin"
    else role

-- `list?.includes(value) === true`
abbrev pub listed : Option (List String) → String → Bool
listed none s = false
listed (some ts) s = includes ts s

-- `value && list?.includes(value) === true`
abbrev pub listed_role : Option (List String) → Option String → Bool
listed_role ts none = false
listed_role ts (some s) = not (s === "") && listed ts s

-- `classes && !classes.includes(value)`
abbrev pub hides : Option (List String) → Option String → Bool
hides none v = false
hides (some cs) none = true
hides (some cs) (some v) = not (includes cs v)

abbrev pub same_key : AccessRequest → Rule → Bool
same_key input rule = (rule.resource === input.resource) && (rule.action === input.action)

-- The part of `canPerform` below the search for a rule.
unfoldable pub decide_by : Option Rule → AccessRequest → Decision
decide_by none input = deny "default_deny_no_matching_rule"
decide_by (some rule) input =
    if not (input.tenant_id === input.resource_tenant_id)
    then deny "tenant_mismatch"
    else if hides rule.visibility_classes input.visibility_class
    then deny "visibility_class_denied"
    else if not (listed rule.organization_roles (resolve_role input.organization_role))
        && not (listed_role rule.project_roles input.project_role)
    then deny "role_denied"
    else allow

unfoldable pub can_perform : AccessRequest → Decision
unfolding decide_by
can_perform input = decide_by (find (same_key input) allow_matrix) input
