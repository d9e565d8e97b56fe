-- ===== src/Communication/Channels.antt =====
-- Channels, their memberships and the preferences of their members, of
-- packages/communication/src/index.js.
use xygo_aec.Base.{
  String, Bool, true, not, List, [], ◌∷◌, Option, none, some, Result, ok, ◌>>=◌, ◌>>◌, throw_if,
  includes, ◌⧺◌, Value, null, bool, str, member, is_true, ◌or_else◌, required_string,
}

abbrev pub channel_types : List String
channel_types =
    "direct_message" ∷ "group_message" ∷ "team_channel" ∷ "department_channel"
    ∷ "cross_team_channel" ∷ "project_channel" ∷ "discipline_channel" ∷ "coordination_channel"
    ∷ "executive_channel" ∷ "finance_restricted_channel" ∷ "legal_restricted_channel"
    ∷ "announcement_channel" ∷ []

abbrev pub visibility_classes : List String
visibility_classes =
    "private" ∷ "participant_only" ∷ "team_only" ∷ "department_only" ∷ "project_only"
    ∷ "discipline_restricted" ∷ "restricted_control" ∷ "finance_restricted" ∷ "legal_restricted"
    ∷ "executive_oversight" ∷ "company_public_summary" ∷ []

unfoldable pub assert_allowed_channel_type : String → Result (Unit {0})
assert_allowed_channel_type t =
    throw_if (not (includes channel_types t)) ("Unknown channel type: " ⧺ t)

unfoldable pub assert_allowed_visibility_class : String → Result (Unit {0})
assert_allowed_visibility_class v =
    throw_if (not (includes visibility_classes v)) ("Unknown visibility class: " ⧺ v)

unfoldable pub make_id : String → String → String
make_id prefix value = prefix ⧺ "-" ⧺ value

pub record Channel : Type 0 where
  pub id : String
  pub tenant_id : String
  pub name : String
  pub channel_type : String
  pub visibility_class : String
  pub project_id : Value
  pub team_id : Value
  pub department_id : Value
  pub created_by : Value
  pub staged : Bool

unfoldable pub create_channel : Value → Result Channel
unfolding assert_allowed_channel_type assert_allowed_visibility_class
create_channel input = do
  id ← required_string (member input "id") "Channel id"
  tenant_id ← required_string (member input "tenantId") "Channel tenantId"
  name ← required_string (member input "name") "Channel name"
  channel_type ← required_string (member input "channelType") "Channel channelType"
  visibility_class ← required_string (member input "visibilityClass") "Channel visibilityClass"
  assert_allowed_channel_type channel_type
  assert_allowed_visibility_class visibility_class
  throw_if (not (is_true (member input "staged"))) "Channels must be staged synthetic records."
  ok (record {
    id = id;
    tenant_id = tenant_id;
    name = name;
    channel_type = channel_type;
    visibility_class = visibility_class;
    project_id = member input "projectId" or_else null;
    team_id = member input "teamId" or_else null;
    department_id = member input "departmentId" or_else null;
    created_by = member input "createdBy" or_else str "system";
    staged = true;
  })

pub record ChannelMembership : Type 0 where
  pub id : String
  pub tenant_id : String
  pub channel_id : String
  pub user_id : String
  pub membership_role : Value
  pub staged : Bool

unfoldable pub create_channel_membership : Value → Result ChannelMembership
create_channel_membership input = do
  id ← required_string (member input "id") "Channel membership id"
  tenant_id ← required_string (member input "tenantId") "Channel membership tenantId"
  channel_id ← required_string (member input "channelId") "Channel membership channelId"
  user_id ← required_string (member input "userId") "Channel membership userId"
  throw_if (not (is_true (member input "staged")))
      "Channel memberships must be staged synthetic records."
  ok (record {
    id = id;
    tenant_id = tenant_id;
    channel_id = channel_id;
    user_id = user_id;
    membership_role = member input "membershipRole" or_else str "member";
    staged = true;
  })

-- The muted channels are a list of texts here.
pub record NotificationPreference : Type 0 where
  pub user_id : String
  pub tenant_id : String
  pub muted_channel_ids : List String
  pub announcement_notifications : Value
  pub mention_notifications : Value
  pub staged : Bool

abbrev or_empty {ℓ} : {A : Type ℓ} → Option (List A) → List A
or_empty none = []
or_empty (some xs) = xs

unfoldable pub create_notification_preference :
    Value → Option (List String) → Result NotificationPreference
create_notification_preference input muted_channel_ids = do
  user_id ← required_string (member input "userId") "Notification preference userId"
  tenant_id ← required_string (member input "tenantId") "Notification preference tenantId"
  ok (record {
    user_id = user_id;
    tenant_id = tenant_id;
    muted_channel_ids = or_empty muted_channel_ids;
    announcement_notifications = member input "announcementNotifications" or_else bool true;
    mention_notifications = member input "mentionNotifications" or_else bool true;
    staged = true;
  })
