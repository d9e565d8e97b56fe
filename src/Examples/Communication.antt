-- ===== src/Examples/Communication.antt =====
-- A channel with two members, and a message in it.
use xygo_aec.Base.{
  true, false, List, [], ◌∷◌, none, ok, String, ◌≡◌, refl, str, Value, null, undefined, obj, field,
  end, includes, any, to_lower, is_blank, required_string, required_array, arr, nil,
}
use xygo_aec.Access.{assert_session_tenant_access}
use xygo_aec.Access.Policy.{Decision, can_perform, decide_by, resolve_role}
use xygo_aec.Access.Policy.Matrix.{allow_matrix}
use xygo_aec.Audit.{create_audit_event, create_outbox_event, seal, base_event, usable_key}
use xygo_aec.Emission.{emit, user_event, aggregate_event}
use xygo_aec.Communication.Channels.{Channel, ChannelMembership}
use xygo_aec.Communication.Messages.{Message, create_message, parse_mentions}
use xygo_aec.Communication.Notifications.{
  Distinct, user_ids, reaches, build_notification_events, build_notification_events-user_ids,
}
use xygo_aec.Communication.Access.{
  can_access_channel, decide_channel, base_communication_decision, find_channel_membership, MaySee,
  can_access_channel_sound,
}
use xygo_aec.Communication.Sending.{
  require_access, Sent, send_message, Delivered, send_message_sound,
}
use xygo_aec.Communication.Searching.{search_messages, filter_messages, lookup_channel, is_match}
use xygo_aec.Examples.Data.{crypto, ambient, session}

abbrev channel : Channel
channel = record {
  id = "c1";
  tenant_id = "tenant-a";
  name = "Site";
  channel_type = "project_channel";
  visibility_class = "project_only";
  project_id = str "p1";
  team_id = null;
  department_id = null;
  created_by = str "system";
  staged = true;
}

abbrev membership : String → String → ChannelMembership
membership id user_id = record {
  id = id;
  tenant_id = "tenant-a";
  channel_id = "c1";
  user_id = user_id;
  membership_role = str "member";
  staged = true;
}

abbrev memberships : List ChannelMembership
memberships = membership "m1" "ana" ∷ membership "m2" "bo" ∷ []

seen : (d : Decision) × (can_access_channel session channel memberships ≡ ok d) × (d.allowed ≡ true)
unfolding can_access_channel decide_channel base_communication_decision find_channel_membership
    assert_session_tenant_access can_perform decide_by resolve_role allow_matrix
seen = (_, refl, refl)

can_access_channel_sound_example : MaySee session channel
can_access_channel_sound_example =
    can_access_channel_sound session channel memberships seen.0 seen.1 seen.2

abbrev input : Value
input = obj (field "id" (str "m9") (field "body" (str "Look, @bo") end))

sent : (r : Sent) × (send_message crypto ambient session channel memberships input none [] ≡ ok r)
unfolding send_message require_access can_access_channel decide_channel base_communication_decision
    find_channel_membership assert_session_tenant_access can_perform decide_by resolve_role
    allow_matrix create_message required_string is_blank required_array parse_mentions emit
    user_event aggregate_event create_audit_event create_outbox_event seal base_event usable_key
sent = (_, refl)

send_message_sound_example : Delivered session channel memberships [] sent.0
send_message_sound_example =
    send_message_sound crypto ambient session channel memberships input none [] sent.0 sent.1

build_notification_events-user_ids_example :
    Distinct (user_ids (build_notification_events sent.0.message channel memberships [] "ana"))
    × ((u : String)
        → includes
            (user_ids (build_notification_events sent.0.message channel memberships [] "ana"))
            u
          ≡ any (reaches sent.0.message channel [] "ana" u) memberships)
build_notification_events-user_ids_example =
    build_notification_events-user_ids sent.0.message channel memberships [] "ana"

abbrev channels : List (String × Channel)
channels = ("c1", channel) ∷ []

abbrev message : Message
message = record {
  id = "m9";
  tenant_id = "tenant-a";
  channel_id = "c1";
  sender_user_id = "ana";
  body = "Look, @bo";
  thread_root_id = null;
  mentions = "bo" ∷ [];
  attachments = arr nil;
  references = arr nil;
  revision = 1;
  deleted = false;
  staged = true;
  edited_at = undefined;
}

found :
    (ms : List Message) × (search_messages session channels memberships (message ∷ []) (str "LOOK")
      ≡ ok ms)
unfolding search_messages filter_messages lookup_channel is_match can_access_channel decide_channel
    base_communication_decision find_channel_membership assert_session_tenant_access can_perform
    decide_by resolve_role allow_matrix required_string is_blank to_lower
found = (_, refl)
