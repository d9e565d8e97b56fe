-- ===== src/Communication/Searching.antt =====
-- `searchMessages` of packages/communication/src/index.js.
use xygo_aec.Base.{
  String, Bool, true, false, ◌&&◌, List, [], ◌∷◌, Option, none, some, Result, ok, ◌>>=◌, ◌===◌,
  to_lower, has_part, if◌then◌else◌, Value, str, required_string, required_string-bind, All, ◌≡◌,
  refl, ap, ◌∙◌, subst, arith, bind_inversion, ok-injective,
}
use xygo_aec.Access.{Session}
use xygo_aec.Communication.Channels.{Channel, ChannelMembership}
use xygo_aec.Communication.Messages.{Message}
use xygo_aec.Communication.Access.{can_access_channel, MaySee, can_access_channel_sound}

-- `channelMap.get(id)`
unfoldable pub lookup_channel : String → List (String × Channel) → Option Channel
lookup_channel id [] = none
lookup_channel id ((k, c) ∷ rest) = if k === id then some c else lookup_channel id rest

-- The test of the filter, with the channel that was looked up.
unfoldable pub is_match :
    Session → List ChannelMembership → String → Message → Option Channel → Result Bool
is_match session memberships query message none = ok false
is_match session memberships query message (some channel) =
    can_access_channel session channel memberships >>= λ access.
    ok (access.allowed && has_part query (to_lower message.body))

abbrev put_if {ℓ} : {A : Type ℓ} → Bool → A → List A → List A
put_if b x xs = if b then x ∷ xs else xs

unfoldable pub filter_messages :
    Session
    → List (String × Channel)
    → List ChannelMembership
    → String
    → List Message
    → Result (List Message)
unfolding lookup_channel is_match
filter_messages session channels memberships query [] = ok []
filter_messages session channels memberships query (m ∷ ms) =
    is_match session memberships query m (lookup_channel m.channel_id channels) >>= λ matches.
    filter_messages session channels memberships query ms >>= λ rest. ok (put_if matches m rest)

unfoldable pub search_messages :
    Session
    → List (String × Channel)
    → List ChannelMembership
    → List Message
    → Value
    → Result (List Message)
unfolding filter_messages to_lower
search_messages session channels memberships messages query = do
  text ← required_string query "Search query"
  filter_messages session channels memberships (to_lower text) messages

-- A message that a search returns.
pub record IsFound (session : Session) (channels : List (String × Channel)) (query : String)
    (m : Message) : Type 0 where
  channel : Channel
  known : lookup_channel m.channel_id channels ≡ some channel
  may_see : MaySee session channel
  matching : has_part query (to_lower m.body) ≡ true

is_match_sound :
    (session : Session) (channels : List (String × Channel)) (memberships : List ChannelMembership)
    (query : String) (m : Message) (found : Option Channel)
    → lookup_channel m.channel_id channels ≡ found
    → is_match session memberships query m found ≡ ok true
    → IsFound session channels query m
unfolding is_match
is_match_sound session channels memberships query m none known h = absurd (ground arith)
is_match_sound session channels memberships query m (some channel) known h =
    let (d, decided, h1) = bind_inversion (can_access_channel session channel memberships) _ h in
    let both = ok-injective h1 in
    record {
      channel = channel;
      known = known;
      may_see = can_access_channel_sound session channel memberships d decided (ground arith);
      matching = ground arith;
    }

put_if-All :
    (session : Session) (channels : List (String × Channel)) (query : String) (m : Message)
    (rest : List Message) (b : Bool)
    → All (IsFound session channels query) rest
    → (b ≡ true → IsFound session channels query m)
    → All (IsFound session channels query) (put_if b m rest)
put_if-All session channels query m rest true all h = (h refl, all)
put_if-All session channels query m rest false all h = all

abbrev text_of : Value → String
text_of (str s) = s
text_of _ = ""

filter_messages_sound :
    (session : Session) (channels : List (String × Channel)) (memberships : List ChannelMembership)
    (query : String) (ms found : List Message)
    → filter_messages session channels memberships query ms ≡ ok found
    → All (IsFound session channels query) found
unfolding filter_messages
filter_messages_sound session channels memberships query [] found h =
    subst (All (IsFound session channels query)) (ok-injective h) tt
filter_messages_sound session channels memberships query (m ∷ ms) found h =
    let (b, tested, h1) =
      bind_inversion (is_match session memberships query m (lookup_channel m.channel_id channels)) _
        h in
    let (rest, kept, h2) =
      bind_inversion (filter_messages session channels memberships query ms) _ h1 in
    let all = filter_messages_sound session channels memberships query ms rest kept in
    let made = ok-injective h2 in
    subst (All (IsFound session channels query)) made (
      put_if-All session channels query m rest b all (λ e.
        is_match_sound session channels memberships query m (lookup_channel m.channel_id channels)
          refl (tested ∙ ap ok e)))

-- A search returns only messages of channels that the session may see and that hold the query, where
-- neither the query nor the message is read with regard to case.
pub search_messages_sound :
    (session : Session) (channels : List (String × Channel)) (memberships : List ChannelMembership)
    (ms found : List Message) (query : String)
    → search_messages session channels memberships ms (str query) ≡ ok found
    → All (IsFound session channels (to_lower query)) found
unfolding search_messages
search_messages_sound session channels memberships ms found query h =
    let (text, given, h1) = required_string-bind (str query) _ _ h in
    filter_messages_sound session channels memberships (to_lower query) ms found (
      ap (λ v. filter_messages session channels memberships (to_lower (text_of v)) ms) given.0 ∙ h1)
