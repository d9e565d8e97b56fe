-- ===== src/Api/Gate.antt =====
-- `authorize` of apps/api/src/handlers.js.
use xygo_aec.Base.{
  String, true, false, not, ◌||◌, Option, none, some, ◌⧺◌, ◌===◌, if◌then◌else◌, ◌≡◌, arith, eq_iff,
  ◌↔◌,
}
use xygo_aec.Access.Policy.{AccessRequest, can_perform}

-- The user that a request was authenticated as.
pub record Principal : Type 0 where
  pub user_id : String
  pub tenant_id : String
  pub organization_role : String
  pub project_role : Option String

-- The message of the response with status 403.
pub record Forbidden : Type 0 where
  pub message : String

abbrev pub request_of : Principal → String → String → String → AccessRequest
request_of principal tenant_id resource action = record {
  resource = resource;
  action = action;
  tenant_id = principal.tenant_id;
  resource_tenant_id = tenant_id;
  organization_role = principal.organization_role;
  project_role = principal.project_role;
  visibility_class = none;
}

-- The response that refuses the request, `none` for null; a principal that is missing is `none`.
unfoldable pub authorize : Option Principal → String → String → String → Option Forbidden
authorize none tenant_id resource action = some (record { message = "Tenant access denied." })
authorize (some principal) tenant_id resource action =
    let decision = can_perform (request_of principal tenant_id resource action) in
    if (principal.tenant_id === "") || not (principal.tenant_id === tenant_id)
    then some (record { message = "Tenant access denied." })
    else if not decision.allowed
    then some (record { message = "Authorization denied: " ⧺ decision.reason ⧺ "." })
    else none

-- A principal who may go on.
pub record IsAuthorized (principal : Principal) (tenant_id resource action : String) : Type 0 where
  pub named : (tenant_id === "") ≡ false
  pub own : principal.tenant_id ≡ tenant_id
  pub permitted : (can_perform (request_of principal tenant_id resource action)).allowed ≡ true

-- A request goes on exactly if its principal is of the tenant of the path, which is not empty, and the
-- permission matrix allows the action on the resource.
pub authorize-none :
    (principal : Principal) (tenant_id resource action : String)
    → (authorize (some principal) tenant_id resource action ≡ none)
      ↔ IsAuthorized principal tenant_id resource action
unfolding authorize
authorize-none principal tenant_id resource action = (
  λ h. record {
    named = ground (
      arith,
      eq_iff principal.tenant_id tenant_id,
      eq_iff tenant_id "",
      eq_iff principal.tenant_id "",
    );
    own = ground (arith, eq_iff principal.tenant_id tenant_id);
    permitted = ground arith;
  },
  λ a. ground (arith, a.named, a.own, a.permitted, eq_iff principal.tenant_id tenant_id),
)
