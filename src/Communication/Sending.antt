-- ===== src/Communication/Sending.antt =====
-- `sendMessage` and `markMessageRead` of packages/communication/src/index.js.
use xygo_aec.Base.{
  ℕ, String, Bool, true, false, not, ◌&&◌, List, Option, Result, ok, throw_if, ◌>>=◌, ◌>>◌, ◌⧺◌,
  Value, nil, arr, ◌or_else◌, required_array, str, obj, field, end, member, truthy, set_has,
  required_string-bind, ◌≡◌, refl, sym, ◌∙◌, subst, arith, bind_inversion, ok-injective,
  throw_if-bind, throw_if-ok, not-eq_false,
}
use xygo_aec.Access.{Session}
use xygo_aec.Audit.{Crypto, Ambient, AuditEvent, OutboxEvent}
use xygo_aec.Emission.{
  user_event, aggregate_event, emit, emit_sound, texts, user_event-recorded,
  aggregate_event-announced, Records, Announces,
}
use xygo_aec.Communication.Channels.{Channel, ChannelMembership, NotificationPreference, make_id}
use xygo_aec.Communication.Messages.{Message, create_message, parse_mentions, spread}
use xygo_aec.Communication.Notifications.{Notification, build_notification_events}
use xygo_aec.Communication.Access.{can_access_channel, MaySee, can_access_channel_sound}

-- `if (!access.allowed) throw new Error(...)` after `canAccessChannel`.
unfoldable pub require_access :
    Session → Channel → List ChannelMembership → String → Result (Unit {0})
require_access session channel memberships label = do
  decision ← can_access_channel session channel memberships
  throw_if (not decision.allowed) (label ⧺ decision.reason)

pub record Sent : Type 0 where
  pub message : Message
  pub audit_event : AuditEvent
  pub outbox_event : OutboxEvent
  pub notifications : List Notification

-- `{ ...messageInput, tenantId, channelId, senderUserId }`
abbrev pub message_input : Session → Channel → Value → Value
message_input session channel input = obj (
    field "tenantId" (str channel.tenant_id) (
      field "channelId" (str channel.id)
        (field "senderUserId" (str session.user_id) (spread input))))

unfoldable pub send_message :
    Crypto
    → Ambient
    → Session
    → Channel
    → List ChannelMembership
    → Value
    → Option ℕ
    → List NotificationPreference
    → Result Sent
send_message c a session channel memberships input revision preferences = do
  require_access session channel memberships "Message send denied: "
  throw_if
      (truthy channel.project_id && not (set_has session.allowed_project_ids channel.project_id))
      "Project access denied."
  message ← create_message (message_input session channel input) revision
  events ←
      emit c a (user_event channel.tenant_id session.user_id "message.sent" "message" message.id) (
        aggregate_event "communication.message.sent" "message" message.id channel.tenant_id (
          obj (field "channelId" (str channel.id) (field "mentions" (texts message.mentions) end))))
  ok (record {
    message = message;
    audit_event = events.audit_event;
    outbox_event = events.outbox_event;
    notifications =
        build_notification_events message channel memberships preferences session.user_id;
  })

pub record ReadState : Type 0 where
  pub id : String
  pub tenant_id : String
  pub channel_id : String
  pub message_id : String
  pub user_id : String
  pub staged : Bool

unfoldable pub mark_message_read :
    Session → Message → Channel → List ChannelMembership → Result ReadState
unfolding make_id
mark_message_read session message channel memberships = do
  require_access session channel memberships "Read state update denied: "
  ok (record {
    id = make_id "read" (message.id ⧺ "-" ⧺ session.user_id);
    tenant_id = channel.tenant_id;
    channel_id = channel.id;
    message_id = message.id;
    user_id = session.user_id;
    staged = true;
  })

require_access-bind {ℓ} :
    {B : Type ℓ} (session : Session) (channel : Channel) (memberships : List ChannelMembership)
    (label : String) (k : Result B) {b : B}
    → (require_access session channel memberships label >> k) ≡ ok b
    → MaySee session channel × (k ≡ ok b)
unfolding require_access
require_access-bind session channel memberships label k h =
    let (u, checked, rest) =
      bind_inversion (require_access session channel memberships label) (λ _. k) h in
    let (d, decided, h1) =
      bind_inversion (can_access_channel session channel memberships) _ checked in
    let denied = throw_if-ok _ _ h1 in
    (can_access_channel_sound session channel memberships d decided (not-eq_false _ denied), rest)

-- What was sent.
pub record Delivered (session : Session) (channel : Channel) (memberships : List ChannelMembership)
    (preferences : List NotificationPreference) (r : Sent) : Type 0 where
  pub may_see : MaySee session channel
  pub in_project :
      truthy channel.project_id ≡ true
      → set_has session.allowed_project_ids channel.project_id ≡ true
  pub tenant : r.message.tenant_id ≡ channel.tenant_id
  pub channel_id : r.message.channel_id ≡ channel.id
  pub sender : r.message.sender_user_id ≡ session.user_id
  pub first_version : r.message.deleted ≡ false
  pub recorded : Records r.audit_event channel.tenant_id session.user_id "message.sent" r.message.id
  pub announced :
      Announces r.outbox_event "communication.message.sent" r.message.id channel.tenant_id
  pub notified :
      r.notifications
      ≡ build_notification_events r.message channel memberships preferences session.user_id

str-injective : {s t : String} → str s ≡ str t → s ≡ t
str-injective {s} {t} h = cc

create_message-owner :
    (input : Value) (revision : Option ℕ) (m : Message) (tenant_id channel_id sender : String)
    → member input "tenantId" ≡ str tenant_id
    → member input "channelId" ≡ str channel_id
    → member input "senderUserId" ≡ str sender
    → create_message input revision ≡ ok m
    → (m.tenant_id ≡ tenant_id)
      × (m.channel_id ≡ channel_id)
      × (m.sender_user_id ≡ sender)
      × (m.deleted ≡ false)
unfolding create_message
create_message-owner input revision m tenant_id channel_id sender t k u h =
    let (id, e0, h1) = required_string-bind _ _ _ h in
    let (tenant, e1, h2) = required_string-bind _ _ _ h1 in
    let (channel, e2, h3) = required_string-bind _ _ _ h2 in
    let (user, e3, h4) = required_string-bind _ _ _ h3 in
    let (body, e4, h5) = required_string-bind _ _ _ h4 in
    let (v, e5, h6) =
      bind_inversion
        (required_array (member input "attachments" or_else arr nil) "Message attachments") _ h5 in
    let (mentions, e6, h7) = bind_inversion (parse_mentions (member input "body")) _ h6 in
    let same_tenant = str-injective (sym e1.0 ∙ t) in
    let same_channel = str-injective (sym e2.0 ∙ k) in
    let same_user = str-injective (sym e3.0 ∙ u) in
    subst
      (λ x.
        (x.tenant_id ≡ tenant_id)
        × (x.channel_id ≡ channel_id)
        × (x.sender_user_id ≡ sender)
        × (x.deleted ≡ false))
      (ok-injective h7) (same_tenant, same_channel, same_user, refl)

not-and : (a b : Bool) → (a && not b) ≡ false → a ≡ true → b ≡ true
not-and a b h e = ground arith

-- A message that is sent was sent by a session that may see the channel and, where the channel has a
-- project, that project. The message, whatever tenant, channel and sender its input names, bears the
-- channel's tenant, the channel and the session's user; both events name it and its tenant, and the
-- notifications are those of the channel's members without the sender.
pub send_message_sound :
    (c : Crypto) (a : Ambient) (session : Session) (channel : Channel)
    (memberships : List ChannelMembership) (input : Value) (revision : Option ℕ)
    (preferences : List NotificationPreference) (r : Sent)
    → send_message c a session channel memberships input revision preferences ≡ ok r
    → Delivered session channel memberships preferences r
unfolding send_message
send_message_sound c a session channel memberships input revision preferences r h =
    let (may_see, h1) = require_access-bind _ _ _ _ _ h in
    let (in_project, h2) = throw_if-bind _ _ _ h1 in
    let (message, created, h3) =
      bind_inversion (create_message (message_input session channel input) revision) _ h2 in
    let (events, emitted, h4) = bind_inversion (emit _ _ _ _) _ h3 in
    let (audit, outbox) = emit_sound _ _ _ _ events emitted in
    let (tenant, channel_id, sender, deleted) =
      create_message-owner (message_input session channel input) revision message channel.tenant_id
        channel.id session.user_id refl refl refl created in
    let made = ok-injective h4 in
    rw (← made) (record {
      may_see = may_see;
      in_project = not-and _ _ in_project;
      tenant = tenant;
      channel_id = channel_id;
      sender = sender;
      first_version = deleted;
      recorded = user_event-recorded _ _ _ _ _ _ _ _ audit;
      announced = aggregate_event-announced _ _ _ _ _ _ _ outbox;
      notified = refl;
    })
