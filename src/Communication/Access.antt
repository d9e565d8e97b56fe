-- ===== src/Communication/Access.antt =====
-- Who may see a channel, by `canAccessChannel` of packages/communication/src/index.js.
use xygo_aec.Base.{
  String, Bool, true, false, not, ◌&&◌, ◌||◌, List, [], ◌∷◌, Option, none, some, Result, ok, ◌>>◌,
  find, includes, ◌===◌, if◌then◌else◌, is_text, truthy, set_has, ◌≡◌, ◌≢◌, ◌∙◌, refl, ap, arith,
  eq_iff, bind_inversion, ok-injective,
}
use xygo_aec.Access.{ProjectRole, Session, assert_session_tenant_access}
use xygo_aec.Access.Policy.{
  AccessRequest, Decision, deny, allow, can_perform, decide_by, resolve_role, hides, listed,
  listed_role,
}
use xygo_aec.Access.Policy.Matrix.{Rule, allow_matrix}
use xygo_aec.Communication.Channels.{Channel, ChannelMembership}

unfoldable pub find_channel_membership :
    List ChannelMembership → String → String → Option ChannelMembership
find_channel_membership memberships channel_id user_id =
    find (λ m. (m.channel_id === channel_id) && (m.user_id === user_id)) memberships

abbrev role_of : Option ProjectRole → Option String
role_of none = none
role_of (some r) = some r.role

-- `session.projectRoles.find((entry) => entry.projectId === channel.projectId)?.role`
abbrev pub project_role : Session → Channel → Option String
project_role session channel =
    role_of (find (λ entry. is_text channel.project_id entry.project_id) session.project_roles)

abbrev pub is_announcement : Channel → Bool
is_announcement channel = channel.channel_type === "announcement_channel"

unfoldable pub base_communication_decision : Session → Channel → String → Option String → Decision
base_communication_decision session channel action role = can_perform (record {
  resource = if is_announcement channel then "announcement_channel" else "channel";
  action = action;
  tenant_id = session.tenant_id;
  resource_tenant_id = channel.tenant_id;
  organization_role = session.organization_role;
  project_role = role;
  visibility_class = some channel.visibility_class;
})

abbrev is_missing {ℓ} : {A : Type ℓ} → Option A → Bool
is_missing none = true
is_missing (some a) = false

abbrev restricted_classes : List String
restricted_classes = "finance_restricted" ∷ "legal_restricted" ∷ "restricted_control" ∷ []

-- What is decided after the guard, for the user's membership.
unfoldable pub decide_channel : Session → Channel → Option ChannelMembership → Decision
unfolding base_communication_decision
decide_channel session channel membership =
    let decision =
      base_communication_decision session channel "read" (project_role session channel) in
    if (channel.visibility_class === "private") && is_missing membership
    then deny "private_membership_required"
    else if not decision.allowed
    then decision
    else if (channel.visibility_class === "project_only")
        && truthy channel.project_id
        && not (set_has session.allowed_project_ids channel.project_id)
    then deny "project_scope_required"
    else if includes restricted_classes channel.visibility_class && is_missing membership
    then deny "restricted_membership_required"
    else allow

unfoldable pub can_access_channel : Session → Channel → List ChannelMembership → Result Decision
unfolding decide_channel find_channel_membership
can_access_channel session channel memberships = do
  assert_session_tenant_access (some session) channel.tenant_id
  ok (
      decide_channel session channel
        (find_channel_membership memberships channel.id session.user_id))

abbrev pub open_classes : List String
open_classes =
    "participant_only" ∷ "team_only" ∷ "department_only" ∷ "project_only" ∷ "company_public_summary"
    ∷ []

abbrev pub channel_roles : List String
channel_roles = "platform_admin" ∷ "company_admin" ∷ "supervisor" ∷ "employee" ∷ []

-- Who may see a channel.
pub record MaySee (session : Session) (channel : Channel) : Type 0 where
  pub staged : session.staged ≡ true
  pub tenant : session.tenant_id ≡ channel.tenant_id
  pub kind : channel.channel_type ≢ "announcement_channel"
  pub visible : includes open_classes channel.visibility_class ≡ true
  pub role : includes channel_roles (resolve_role session.organization_role) ≡ true
  pub project :
      channel.visibility_class ≡ "project_only"
      → truthy channel.project_id ≡ true
      → set_has session.allowed_project_ids channel.project_id ≡ true

-- The request to read a channel.
abbrev read_request : Bool → Session → Channel → Option String → AccessRequest
read_request announcement session channel role = record {
  resource = if announcement then "announcement_channel" else "channel";
  action = "read";
  tenant_id = session.tenant_id;
  resource_tenant_id = channel.tenant_id;
  organization_role = session.organization_role;
  project_role = role;
  visibility_class = some channel.visibility_class;
}

-- The rule of the matrix for it.
abbrev channel_rule : Rule
channel_rule = record {
  resource = "channel";
  action = "read";
  organization_roles = some channel_roles;
  project_roles = none;
  visibility_classes = some open_classes;
}

shown_class : (b : Bool) → not b ≡ false → b ≡ true
shown_class b h = ground arith

organization_granted : (a b : Bool) → (a || b) ≡ true → b ≡ false → a ≡ true
organization_granted a b h e = ground arith

no_project_role : (role : Option String) → listed_role none role ≡ false
no_project_role none = refl
no_project_role (some r) = ground arith

decide_by-allowed :
    (rule : Rule) (input : AccessRequest)
    → (decide_by (some rule) input).allowed ≡ true
    → (hides rule.visibility_classes input.visibility_class ≡ false)
      × ((listed rule.organization_roles (resolve_role input.organization_role)
            || listed_role rule.project_roles input.project_role)
          ≡ true)
unfolding decide_by
decide_by-allowed rule input h = ground arith

-- What the permission matrix asks of a reader of a channel.
read_request_allowed :
    (announcement : Bool) (session : Session) (channel : Channel) (role : Option String)
    → (can_perform (read_request announcement session channel role)).allowed ≡ true
    → (announcement ≡ false)
      × (includes open_classes channel.visibility_class ≡ true)
      × (includes channel_roles (resolve_role session.organization_role) ≡ true)
unfolding can_perform decide_by allow_matrix
read_request_allowed true session channel role h = cc
read_request_allowed false session channel role h =
    let (visible, granted) =
      decide_by-allowed channel_rule (read_request false session channel role) h in
    (
      refl,
      shown_class (includes open_classes channel.visibility_class) visible,
      organization_granted (includes channel_roles (resolve_role session.organization_role))
          (listed_role none role) granted (no_project_role role),
    )

base_decision_allowed :
    (session : Session) (channel : Channel) (role : Option String)
    → (base_communication_decision session channel "read" role).allowed ≡ true
    → (is_announcement channel ≡ false)
      × (includes open_classes channel.visibility_class ≡ true)
      × (includes channel_roles (resolve_role session.organization_role) ≡ true)
unfolding base_communication_decision
base_decision_allowed session channel role h =
    read_request_allowed (is_announcement channel) session channel role h

decided_base :
    (private_denied allowed scoped restricted : Bool) (decision : Decision)
    → decision.allowed ≡ allowed
    → (if private_denied
        then deny "private_membership_required"
        else if not allowed
        then decision
        else if scoped
        then deny "project_scope_required"
        else if restricted
        then deny "restricted_membership_required"
        else allow).allowed
      ≡ true
    → (decision.allowed ≡ true) × (scoped ≡ false)
decided_base private_denied allowed scoped restricted decision e h = ground arith

scope_kept :
    (visibility : String) (project scoped : Bool)
    → ((visibility === "project_only") && project && not scoped) ≡ false
    → visibility ≡ "project_only"
    → project ≡ true
    → scoped ≡ true
scope_kept visibility project scoped h e p = ground (arith, eq_iff visibility "project_only")

not_announcement :
    (t : String) → (t === "announcement_channel") ≡ false → t ≢ "announcement_channel"
not_announcement t h e = ground (arith, eq_iff t "announcement_channel")

guard_sound :
    (session : Session) (tenant_id : String)
    → assert_session_tenant_access (some session) tenant_id ≡ ok tt
    → (session.staged ≡ true) × (session.tenant_id ≡ tenant_id)
unfolding assert_session_tenant_access
guard_sound session tenant_id h = ground (arith, eq_iff session.tenant_id tenant_id)

-- A session that may see a channel is staged and of the channel's tenant, with one of four
-- organization roles after the aliases; the channel is no announcement channel and of one of the five
-- classes that the matrix shows, so no private or restricted one, and, if it is of class
-- `project_only` and has a project, the session may see that project.
pub can_access_channel_sound :
    (session : Session) (channel : Channel) (memberships : List ChannelMembership) (d : Decision)
    → can_access_channel session channel memberships ≡ ok d
    → d.allowed ≡ true
    → MaySee session channel
unfolding can_access_channel
can_access_channel_sound session channel memberships d h allowed =
    let (u, guarded, h1) =
      bind_inversion (assert_session_tenant_access (some session) channel.tenant_id) _ h in
    let (staged, tenant) = guard_sound session channel.tenant_id guarded in
    let decision =
      base_communication_decision session channel "read" (project_role session channel) in
    let (base, scoped) =
      decided_base _ decision.allowed _ _ decision refl
        (ap (λ (x : Decision). x.allowed) (ok-injective h1) ∙ allowed) in
    let (kind, visible, role) =
      base_decision_allowed session channel (project_role session channel) base in
    record {
      staged = staged;
      tenant = tenant;
      kind = not_announcement channel.channel_type kind;
      visible = visible;
      role = role;
      project = scope_kept channel.visibility_class _ _ scoped;
    }
