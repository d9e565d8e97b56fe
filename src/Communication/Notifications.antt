-- ===== src/Communication/Notifications.antt =====
-- The notifications of a message, by `buildNotificationEvents` of
-- packages/communication/src/index.js.
use xygo_aec.Base.{
  String, Bool, true, false, not, ◌&&◌, ◌||◌, List, [], ◌∷◌, ◌++◌, map, Option, none, some, find,
  any, includes, ◌⧺◌, ◌===◌, to_lower, if◌then◌else◌, Value, bool, ◌≡◌, refl, ap, arith, eq_iff,
  eq_of_===, ◌∙◌, Bool-cases, inl, inr,
}
use xygo_aec.Communication.Channels.{Channel, ChannelMembership, NotificationPreference, make_id}
use xygo_aec.Communication.Messages.{Message}

pub record Notification : Type 0 where
  pub id : String
  pub tenant_id : String
  pub user_id : String
  pub channel_id : String
  pub message_id : String
  pub kind : String
  pub staged : Bool

abbrev mutes : Option NotificationPreference → String → Bool
mutes none channel_id = false
mutes (some p) channel_id = includes p.muted_channel_ids channel_id

-- `value === false`
abbrev is_false : Value → Bool
is_false (bool b) = not b
is_false _ = false

abbrev refuses_announcements : Option NotificationPreference → Bool
refuses_announcements none = false
refuses_announcements (some p) = is_false p.announcement_notifications

abbrev pub is_mentioned : Message → String → Bool
is_mentioned message user_id = includes message.mentions (to_lower user_id)

abbrev preference_of : List NotificationPreference → String → Option NotificationPreference
preference_of preferences user_id = find (λ p. p.user_id === user_id) preferences

-- A membership that none of the loop's `continue` statements skips.
unfoldable pub is_notified :
    Message → Channel → List NotificationPreference → String → ChannelMembership → Bool
is_notified message channel preferences sender m =
    let preference = preference_of preferences m.user_id in
    not (not (m.channel_id === channel.id) || (m.user_id === sender))
    && not (mutes preference channel.id && not (is_mentioned message m.user_id))
    && not ((channel.channel_type === "announcement_channel") && refuses_announcements preference)

-- `recipientIds.add(userId)`
abbrev add_recipient : List String → String → List String
add_recipient ids user_id = if includes ids user_id then ids else ids ++ user_id ∷ []

unfoldable pub recipients :
    (ChannelMembership → Bool) → List String → List ChannelMembership → List String
recipients test ids [] = ids
recipients test ids (m ∷ ms) =
    let with_user = recipients test (add_recipient ids m.user_id) ms in
    let without = recipients test ids ms in if test m then with_user else without

unfoldable pub notification_for : Message → Channel → String → Notification
unfolding make_id
notification_for message channel user_id = record {
  id = make_id "notification" (message.id ⧺ "-" ⧺ user_id);
  tenant_id = channel.tenant_id;
  user_id = user_id;
  channel_id = channel.id;
  message_id = message.id;
  kind = if is_mentioned message user_id then "mention" else "channel_message";
  staged = true;
}

unfoldable pub build_notification_events :
    Message
    → Channel
    → List ChannelMembership
    → List NotificationPreference
    → String
    → List Notification
unfolding recipients is_notified notification_for
build_notification_events message channel memberships preferences sender =
    map (notification_for message channel)
      (recipients (is_notified message channel preferences sender) [] memberships)

-- No text stands twice.
abbrev pub Distinct : List String → Type 0
Distinct [] = Unit
Distinct (t ∷ ts) = (includes ts t ≡ false) × Distinct ts

abbrev pub user_ids : List Notification → List String
user_ids [] = []
user_ids (n ∷ ns) = n.user_id ∷ user_ids ns

includes-append :
    (ts : List String) (u t : String) → includes (ts ++ u ∷ []) t ≡ (includes ts t || (t === u))
includes-append [] u t = ground (arith, eq_iff t u)
includes-append (s ∷ ts) u t = ground (arith, includes-append ts u t)

Distinct-append :
    (ts : List String) (u : String) → Distinct ts → includes ts u ≡ false → Distinct (ts ++ u ∷ [])
Distinct-append [] u d h = (refl, tt)
Distinct-append (t ∷ ts) u d h = (
  ground (arith, includes-append ts u t, eq_iff t u, eq_iff u t),
  Distinct-append ts u d.1 (ground arith),
)

module _ (test : ChannelMembership → Bool) where
  recipients-Distinct :
      (ids : List String) (ms : List ChannelMembership)
      → Distinct ids
      → Distinct (recipients test ids ms)
  unfolding recipients
  recipients-Distinct ids [] d = d
  recipients-Distinct ids (m ∷ ms) d = elim (Bool-cases (test m)) [
    | inr e ↦ rw e (recipients-Distinct ids ms d)
    | inl e ↦ rw e (elim (Bool-cases (includes ids m.user_id)) [
      | inl old ↦ rw old (recipients-Distinct ids ms d)
      | inr new ↦
          rw new
            (recipients-Distinct (ids ++ m.user_id ∷ []) ms (Distinct-append ids m.user_id d new))
    ])
  ]

  includes-recipients :
      (ids : List String) (ms : List ChannelMembership) (u : String)
      → includes (recipients test ids ms) u
        ≡ (includes ids u || any (λ m. test m && (u === m.user_id)) ms)
  unfolding recipients
  includes-recipients ids [] u = ground arith
  includes-recipients ids (m ∷ ms) u = ground (
    arith,
    includes-recipients ids ms u,
    includes-recipients (ids ++ m.user_id ∷ []) ms u,
    includes-append ids m.user_id u,
    eq_iff u m.user_id,
  )

user_ids-map :
    (message : Message) (channel : Channel) (ids : List String)
    → user_ids (map (notification_for message channel) ids) ≡ ids
unfolding notification_for
user_ids-map message channel [] = refl
user_ids-map message channel (u ∷ ids) = ap (λ rest. u ∷ rest) (user_ids-map message channel ids)

-- What the preferences of a member leave of a message: in a channel that is muted the mentions, and in a
-- channel for announcements nothing where these are refused. Without preferences, everything.
abbrev pub wants : (announcement mentioned : Bool) → String → Option NotificationPreference → Bool
wants announcement mentioned channel_id none = true
wants announcement mentioned channel_id (some p) =
    (mentioned || not (includes p.muted_channel_ids channel_id))
    && (not announcement || not (is_false p.announcement_notifications))

-- The membership is one of the user, who is not the sender, in the channel, and the preferences let the
-- message through.
abbrev pub reaches :
    Message → Channel → List NotificationPreference → String → String → ChannelMembership → Bool
reaches message channel preferences sender u m =
    (u === m.user_id)
    && (m.channel_id === channel.id)
    && not (u === sender)
    && wants (channel.channel_type === "announcement_channel")
        (includes message.mentions (to_lower m.user_id)) channel.id
        (find (λ p. p.user_id === m.user_id) preferences)

notified_lem :
    (found : Option NotificationPreference) (announcement mentioned in_channel own : Bool)
    (channel_id : String)
    → (not (not in_channel || own)
        && not (mutes found channel_id && not mentioned)
        && not (announcement && refuses_announcements found))
      ≡ (in_channel && not own && wants announcement mentioned channel_id found)
notified_lem none announcement mentioned in_channel own channel_id = ground arith
notified_lem (some p) announcement mentioned in_channel own channel_id = ground arith

is_notified-reaches :
    (message : Message) (channel : Channel) (preferences : List NotificationPreference)
    (sender u : String) (m : ChannelMembership)
    → (is_notified message channel preferences sender m && (u === m.user_id))
      ≡ reaches message channel preferences sender u m
unfolding is_notified
is_notified-reaches message channel preferences sender u m =
    let same =
      notified_lem (find (λ p. p.user_id === m.user_id) preferences)
        (channel.channel_type === "announcement_channel")
        (includes message.mentions (to_lower m.user_id)) (m.channel_id === channel.id)
        (m.user_id === sender) channel.id in
    elim (Bool-cases (u === m.user_id)) [
      | inl own ↦
          let u_sender : (u === sender) ≡ (m.user_id === sender) =
            ap (λ t. t === sender) (eq_of_=== u m.user_id own) in
          rw (same, own, u_sender) (ground arith)
      | inr other ↦ rw other (ground arith)
    ]

any-cong :
    (f g : ChannelMembership → Bool) (ms : List ChannelMembership)
    → ((m : ChannelMembership) → f m ≡ g m)
    → any f ms ≡ any g ms
any-cong f g [] same = refl
any-cong f g (m ∷ ms) same = rw (same m, any-cong f g ms same) refl

-- Nobody is notified twice of a message, and a user is notified exactly if some membership is one of the
-- user in the channel, the user is not the sender, and the user's first preferences, if there are any, mute
-- the channel only if the message mentions the user, and do not refuse announcements if the channel is one
-- for announcements.
pub build_notification_events-user_ids :
    (message : Message) (channel : Channel) (memberships : List ChannelMembership)
    (preferences : List NotificationPreference) (sender : String)
    → Distinct (user_ids (build_notification_events message channel memberships preferences sender))
      × ((u : String)
          → includes
              (user_ids (build_notification_events message channel memberships preferences sender))
              u
            ≡ any (reaches message channel preferences sender u) memberships)
unfolding build_notification_events
build_notification_events-user_ids message channel memberships preferences sender =
    let test = is_notified message channel preferences sender in
    rw (user_ids-map message channel (recipients test [] memberships)) (
      recipients-Distinct test [] memberships tt,
      λ u.
          includes-recipients test [] memberships u
          ∙ any-cong _ _ memberships (is_notified-reaches message channel preferences sender u),
    )
