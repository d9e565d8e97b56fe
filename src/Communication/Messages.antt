-- ===== src/Communication/Messages.antt =====
-- Messages of packages/communication/src/index.js, their mentions and revisions.
use Prim.Native.Char.{Char, code}
use Prim.Native.String
use xygo_aec.Base.{
  ℕ, ◌+◌, String, Bool, true, false, ◌&&◌, ◌||◌, List, [], ◌∷◌, map, Option, Result, ok, ◌>>=◌,
  ◌>>◌, leb, ◌==◌, ◌===◌, to_lower, if◌then◌else◌, ◌≡◌, refl, Value, Fields, nil, null, undefined,
  str, arr, obj, end, member, ◌or_else◌, required_string, required_array,
}
use xygo_aec.Audit.{get_or}

-- `[a-z0-9._-]` without regard to case
unfoldable pub is_name_character : Char → Bool
is_name_character c =
    (leb 97 (code c) && leb (code c) 122)
    || (leb 65 (code c) && leb (code c) 90)
    || (leb 48 (code c) && leb (code c) 57)
    || code c == 46
    || code c == 95
    || code c == 45

-- What is read of a text: outside a name, or in one that began after `@`.
pub data Scan : Type 0 where
  outside : Scan
  inside : String → Scan

-- The name that was read, if there is one.
unfoldable pub close_name : Scan → List String → List String
close_name outside names = names
close_name (inside name) names = if name === "" then names else name ∷ names

is_at : Char → Bool
is_at c = code c == 64

-- The scan after a character that does not go on with a name.
after_other : Char → Scan
unfolding is_at
after_other c = if is_at c then inside "" else outside

-- The matches of `/@([a-z0-9._-]+)/gi` without the `@`.
unfoldable pub find_names : Scan → String → List String
unfolding close_name after_other is_name_character
find_names scan String.[] = close_name scan []
find_names outside (String.◌∷◌ c s) = find_names (after_other c) s
find_names (inside name) (String.◌∷◌ c s) =
    let more = find_names (inside (String.◌++◌ name (String.◌∷◌ c ""))) s in
    let rest = find_names (after_other c) s in
    if is_name_character c then more else close_name (inside name) rest

unfoldable pub parse_mentions : Value → Result (List String)
unfolding find_names to_lower
parse_mentions body = do
  text ← required_string body "Message body"
  ok (map to_lower (find_names outside text))

parse_mentions_test :
    (map to_lower (find_names outside "@@Ana.Q, ask @bo-2! @") ≡ "ana.q" ∷ "bo-2" ∷ [])
unfolding find_names to_lower
parse_mentions_test = refl

pub record AttachmentReference : Type 0 where
  pub id : String
  pub tenant_id : String
  pub file_record_id : String
  pub file_class : Value
  pub staged : Bool

unfoldable pub create_attachment_reference : Value → Result AttachmentReference
create_attachment_reference input = do
  id ← required_string (member input "id") "Attachment id"
  tenant_id ← required_string (member input "tenantId") "Attachment tenantId"
  file_record_id ← required_string (member input "fileRecordId") "Attachment fileRecordId"
  ok (record {
    id = id;
    tenant_id = tenant_id;
    file_record_id = file_record_id;
    file_class = member input "fileClass" or_else str "general_document";
    staged = true;
  })

pub record Message : Type 0 where
  pub id : String
  pub tenant_id : String
  pub channel_id : String
  pub sender_user_id : String
  pub body : String
  pub thread_root_id : Value
  pub mentions : List String
  pub attachments : Value
  pub references : Value
  pub revision : ℕ
  pub deleted : Bool
  pub staged : Bool
  pub edited_at : Value

-- The revision of the argument is a number or left out.
unfoldable pub create_message : Value → Option ℕ → Result Message
create_message input revision = do
  id ← required_string (member input "id") "Message id"
  tenant_id ← required_string (member input "tenantId") "Message tenantId"
  channel_id ← required_string (member input "channelId") "Message channelId"
  sender_user_id ← required_string (member input "senderUserId") "Message senderUserId"
  body ← required_string (member input "body") "Message body"
  required_array (member input "attachments" or_else arr nil) "Message attachments"
  mentions ← parse_mentions (member input "body")
  ok (record {
    id = id;
    tenant_id = tenant_id;
    channel_id = channel_id;
    sender_user_id = sender_user_id;
    body = body;
    thread_root_id = member input "threadRootId" or_else null;
    mentions = mentions;
    attachments = member input "attachments" or_else arr nil;
    references = member input "references" or_else arr nil;
    revision = get_or revision 1;
    deleted = false;
    staged = true;
    edited_at = undefined;
  })

-- `now` is the time of the revision.
unfoldable pub create_message_revision : String → Message → Value → Result Message
create_message_revision now message updated_body = do
  body ← required_string updated_body "Updated message body"
  mentions ← parse_mentions updated_body
  ok (record message {
    body = body;
    mentions = mentions;
    revision = message.revision + 1;
    edited_at = str now;
  })

-- The fields of an object that is spread.
abbrev pub spread : Value → Fields
spread (obj fs) = fs
spread _ = end
