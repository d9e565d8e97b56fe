-- ===== src/Access.antt =====
-- packages/auth/src/synthetic-auth.js: sessions, and the guards on tenant and project that the
-- packages call. The children model packages/authorization/src/policy.js.
pub mod Policy
use xygo_aec.Base.{
  String, Bool, true, not, List, [], Option, none, some, Result, ok, throw, ◌>>=◌, ◌>>◌, throw_if,
  includes, ◌===◌, Value, is_true, required_string, ◌≡◌, eq_iff, bind_inversion, arith,
  if◌then◌else◌,
}

pub record ProjectRole : Type 0 where
  pub project_id : String
  pub role : String

pub record Session : Type 0 where
  pub session_id : String
  pub tenant_id : String
  pub user_id : String
  pub organization_role : String
  pub project_roles : List ProjectRole
  pub allowed_project_ids : List String
  pub staged : Bool

-- The argument of `createSyntheticSession`; a field left out, or null, is `none`.
pub record SessionInput : Type 0 where
  pub session_id : Value
  pub tenant_id : Value
  pub user_id : Value
  pub staged : Value
  pub organization_role : Option String
  pub project_roles : Option (List ProjectRole)
  pub allowed_project_ids : Option (List String)

abbrev or_default {ℓ} : {A : Type ℓ} → Option A → A → A
or_default none d = d
or_default (some a) d = a

pub create_synthetic_session : SessionInput → Result Session
create_synthetic_session input = do
  session_id ← required_string input.session_id "sessionId"
  tenant_id ← required_string input.tenant_id "tenantId"
  user_id ← required_string input.user_id "userId"
  throw_if (not (is_true input.staged)) "Synthetic sessions must be marked staged=true."
  ok (record {
    session_id = session_id;
    tenant_id = tenant_id;
    user_id = user_id;
    organization_role = or_default input.organization_role "employee";
    project_roles = or_default input.project_roles [];
    allowed_project_ids = or_default input.allowed_project_ids [];
    staged = true;
  })

-- `none` is a missing session.
unfoldable pub assert_session_tenant_access : Option Session → String → Result (Unit {0})
assert_session_tenant_access none tenant_id = throw "A staged synthetic session is required."
assert_session_tenant_access (some session) tenant_id = do
  throw_if (not session.staged) "A staged synthetic session is required."
  throw_if (not (session.tenant_id === tenant_id)) "Tenant access denied."

unfoldable pub assert_project_access : Session → String → Result (Unit {0})
assert_project_access session project_id =
    throw_if (not (includes session.allowed_project_ids project_id)) "Project access denied."

pub record AuthContext : Type 0 where
  pub actor_type : String
  pub actor_id : String
  pub tenant_id : String
  pub organization_role : String
  pub project_roles : List ProjectRole
  pub allowed_project_ids : List String
  pub staged : Bool

pub build_auth_context : Option Session → Result AuthContext
build_auth_context none = throw "Cannot build auth context without a staged session."
build_auth_context (some session) = do
  throw_if (not session.staged) "Cannot build auth context without a staged session."
  ok (record {
    actor_type = "user";
    actor_id = session.user_id;
    tenant_id = session.tenant_id;
    organization_role = session.organization_role;
    project_roles = session.project_roles;
    allowed_project_ids = session.allowed_project_ids;
    staged = true;
  })

-- The two guards that stand at the head of most operations of the packages.
unfoldable pub assert_scope : Session → String → String → Result (Unit {0})
unfolding assert_session_tenant_access assert_project_access
assert_scope session tenant_id project_id = do
  assert_session_tenant_access (some session) tenant_id
  assert_project_access session project_id

-- A session that both guards let through.
pub record InScope (session : Session) (tenant_id project_id : String) : Type 0 where
  pub staged : session.staged ≡ true
  pub tenant : session.tenant_id ≡ tenant_id
  pub project : includes session.allowed_project_ids project_id ≡ true

pub assert_scope_sound :
    (session : Session) (tenant_id project_id : String)
    → assert_scope session tenant_id project_id ≡ ok tt
    → InScope session tenant_id project_id
unfolding assert_scope
assert_scope_sound session tenant_id project_id h =
    ground (arith, eq_iff session.tenant_id tenant_id)

pub assert_scope_complete :
    (session : Session) (tenant_id project_id : String)
    → InScope session tenant_id project_id
    → assert_scope session tenant_id project_id ≡ ok tt
unfolding assert_scope
assert_scope_complete session tenant_id project_id s =
    ground (arith, eq_iff session.tenant_id tenant_id)

-- An operation that got past both guards ran in scope.
pub assert_scope-bind {ℓ} :
    {B : Type ℓ} (session : Session) (tenant_id project_id : String) (k : Result B) {b : B}
    → (assert_scope session tenant_id project_id >> k) ≡ ok b
    → InScope session tenant_id project_id × (k ≡ ok b)
assert_scope-bind session tenant_id project_id k h =
    let (u, e, g) = bind_inversion (assert_scope session tenant_id project_id) (λ _. k) h in
    (assert_scope_sound session tenant_id project_id e, g)
