-- ===== src/Email.antt =====
-- The state of an email delivery in packages/email-delivery/src/index.js: its checks, the steps of the
-- worker and the events of the provider.
pub mod Provider
pub mod Suppressions
pub mod Runs
pub mod Webhooks
use Prim.Native.Char.{Char, code}
use Prim.Native.String
use xygo_aec.Base.{
  ℕ, zero, suc, ◌+◌, max, String, Bool, true, false, not, ◌&&◌, ◌||◌, List, [], ◌∷◌, Option, none,
  some, Result, ok, throw, ◌>>=◌, ◌>>◌, throw_if, includes, ◌⧺◌, ◌===◌, ◌==◌, ltb, leb, trim,
  to_lower, is_space, if◌then◌else◌,
}
use xygo_aec.Outbox.Jobs.{first_characters, same_text}

abbrev pub delivery_kinds : List String
delivery_kinds = "activation" ∷ "report_ready" ∷ "portal_update" ∷ []

abbrev pub delivery_statuses : List String
delivery_statuses =
    "queued" ∷ "sending" ∷ "accepted" ∷ "delivered" ∷ "delayed" ∷ "failed" ∷ "bounced"
    ∷ "complained" ∷ "suppressed" ∷ []

abbrev pub terminal_statuses : List String
terminal_statuses = "delivered" ∷ "bounced" ∷ "complained" ∷ "suppressed" ∷ []

-- `WEBHOOK_STATUS[type]`, empty for a type that is not in the table.
unfoldable pub webhook_status : String → String
webhook_status t =
    if t === "email.sent"
    then "accepted"
    else if t === "email.delivered"
    then "delivered"
    else if t === "email.delivery_delayed"
    then "delayed"
    else if t === "email.failed"
    then "failed"
    else if t === "email.bounced"
    then "bounced"
    else if t === "email.complained"
    then "complained"
    else if includes ("email.suppressed" ∷ "email.unsubscribed" ∷ []) t
    then "suppressed"
    else ""

character_count : String → ℕ
character_count String.[] = 0
character_count (String.◌∷◌ c s) = suc (character_count s)

-- The control characters but for tab and line ends.
has_bad_control : String → Bool
has_bad_control String.[] = false
has_bad_control (String.◌∷◌ c s) =
    leb (code c) 8
    || code c == 11
    || code c == 12
    || (leb 14 (code c) && leb (code c) 31)
    || code c == 127
    || has_bad_control s

-- The trimmed text, of at most `maximum` characters.
unfoldable pub bounded_text : String → String → ℕ → Result String
unfolding character_count has_bad_control
bounded_text value label maximum = do
  throw_if (trim value === "") (label ⧺ " is required.")
  throw_if (ltb maximum (character_count (trim value)) || has_bad_control (trim value))
      (label ⧺ " is invalid or too long.")
  ok (trim value)

-- `[^\s@<>]`
is_address_character : Char → Bool
is_address_character c = not (is_space (code c) || code c == 64 || code c == 60 || code c == 62)

-- What was read of an address: before the `@`, with or without a character; after it, with or without a
-- character, or with a dot behind one, with or without a character behind the dot.
pub data AddressScan : Type 0 where
  start local at_sign domain dot whole refused : AddressScan

-- The next character is good, a dot, or `@`.
unfoldable pub scan_address : AddressScan → Bool → Bool → Bool → AddressScan
scan_address start good is_dot is_at = if good then local else refused
scan_address local good is_dot is_at = if is_at then at_sign else if good then local else refused
scan_address at_sign good is_dot is_at = if good then domain else refused
scan_address domain good is_dot is_at = if is_dot then dot else if good then domain else refused
scan_address dot good is_dot is_at = if good then whole else refused
scan_address whole good is_dot is_at = if good then whole else refused
scan_address refused good is_dot is_at = refused

abbrev is_whole : AddressScan → Bool
is_whole whole = true
is_whole _ = false

-- `/^[^\s@<>]+@[^\s@<>]+\.[^\s@<>]+$/.test(text)`
unfoldable pub is_address_from : AddressScan → String → Bool
unfolding scan_address is_address_character
is_address_from scan String.[] = is_whole scan
is_address_from scan (String.◌∷◌ c s) =
    is_address_from (scan_address scan (is_address_character c) (code c == 46) (code c == 64)) s

unfoldable pub email_address : String → String → Result String
unfolding bounded_text is_address_from
email_address value label = do
  text ← bounded_text value label 320
  throw_if (not (is_address_from start (to_lower text))) (label ⧺ " is invalid.")
  ok (to_lower text)

unfoldable pub normalize_email_recipient : String → Result String
normalize_email_recipient value = email_address value "Suppression recipient"

pub record EmailMessage : Type 0 where
  pub subject : String
  pub text : String
  pub html : String
  pub action_url : String

-- Times are numbers of milliseconds.
pub record EmailDelivery : Type 0 where
  pub id : String
  pub tenant_id : String
  pub recipient_user_id : Option String
  pub recipient_email : String
  pub kind : String
  pub resource_type : Option String
  pub resource_id : Option String
  pub idempotency_key : String
  pub status : String
  pub attempts : ℕ
  pub provider : Option String
  pub provider_message_id : Option String
  pub provider_status_at : Option ℕ
  pub last_error : Option String
  pub message : EmailMessage
  pub created_at : ℕ
  pub updated_at : ℕ
  pub accepted_at : Option ℕ
  pub delivered_at : Option ℕ

unfoldable pub assert_email_delivery : EmailDelivery → Result (Unit {0})
assert_email_delivery d = do
  id ← bounded_text d.id "Email delivery id" 200
  tenant_id ← bounded_text d.tenant_id "Email delivery tenantId" 200
  recipient ← email_address d.recipient_email "Recipient email"
  throw_if (not (includes delivery_kinds d.kind)) "Email delivery kind is invalid."
  throw_if (not (includes delivery_statuses d.status)) "Email delivery status is invalid."
  key ← bounded_text d.idempotency_key "Email delivery idempotency key" 256
  ok tt

abbrev same_message : EmailMessage → EmailMessage → Bool
same_message m n =
    (m.subject === n.subject)
    && (m.text === n.text)
    && (m.html === n.html)
    && (m.action_url === n.action_url)

unfoldable pub email_delivery_intent_matches : EmailDelivery → EmailDelivery → Bool
email_delivery_intent_matches d e =
    (d.id === e.id)
    && (d.tenant_id === e.tenant_id)
    && same_text d.recipient_user_id e.recipient_user_id
    && (d.recipient_email === e.recipient_email)
    && (d.kind === e.kind)
    && same_text d.resource_type e.resource_type
    && same_text d.resource_id e.resource_id
    && (d.idempotency_key === e.idempotency_key)
    && same_message d.message e.message

abbrev pub is_terminal : EmailDelivery → Bool
is_terminal d = includes terminal_statuses d.status

-- `Math.max(attempts ?? 0, Number(attempt) || 1)`; an attempt that is no number is 0.
abbrev pub next_attempts : ℕ → ℕ → ℕ
next_attempts attempts attempt = max attempts (if attempt == 0 then 1 else attempt)

unfoldable pub mark_email_delivery_sending : EmailDelivery → ℕ → ℕ → Result EmailDelivery
mark_email_delivery_sending d attempt now = do
  assert_email_delivery d
  ok (
      if is_terminal d then d else record d {
        status = "sending";
        attempts = next_attempts d.attempts attempt;
        last_error = none;
        updated_at = now;
      })

abbrev first_time : Option ℕ → ℕ → Option ℕ
first_time none now = some now
first_time (some t) now = some t

unfoldable pub mark_email_delivery_accepted :
    EmailDelivery → String → String → ℕ → Result EmailDelivery
mark_email_delivery_accepted d provider provider_message_id now = do
  assert_email_delivery d
  if is_terminal d
      then ok d
      else (bounded_text provider "Email provider" 100 >>= λ by.
          bounded_text provider_message_id "Provider message id" 200 >>= λ message_id.
          ok (record d {
            status = "accepted";
            provider = some by;
            provider_message_id = some message_id;
            provider_status_at = some now;
            last_error = none;
            accepted_at = first_time d.accepted_at now;
            updated_at = now;
          }))

-- `text` with its control characters as spaces.
spaces_for_control : String → String
spaces_for_control String.[] = ""
spaces_for_control (String.◌∷◌ c s) =
    String.◌∷◌ (if leb (code c) 31 || code c == 127 then " " else c) (spaces_for_control s)

unfoldable pub mark_email_delivery_failed : EmailDelivery → String → ℕ → ℕ → Result EmailDelivery
unfolding spaces_for_control
mark_email_delivery_failed d message attempt now = do
  assert_email_delivery d
  ok (
      if is_terminal d then d else record d {
        status = "failed";
        attempts = next_attempts d.attempts attempt;
        last_error = some (first_characters 2000 (spaces_for_control message));
        updated_at = now;
      })
