-- ===== src/Outbox/Jobs.antt =====
-- Jobs of apps/api/src/reliability/outbox.js, and the helpers that build and compare them.
use Prim.Native.Char.{code}
use xygo_aec.Base.{
  ℕ, zero, suc, ◌-◌, ◌*◌, ◌^◌, min, String, Bool, true, false, ◌&&◌, ◌||◌, Option, none, some,
  Result, ok, throw, throw_code, throw_if, ◌>>=◌, ◌>>◌, ◌===◌, ◌==◌, ltb, ◌⧺◌, trim, decimal,
  if◌then◌else◌, ◌≡◌, bind_inversion,
}
use xygo_aec.Audit.{OutboxEvent, get_or}

pub data Status : Type 0 where
  pending processing failed processed dead : Status

-- `status === other`
unfoldable pub same_status : Status → Status → Bool
same_status pending pending = true
same_status processing processing = true
same_status failed failed = true
same_status processed processed = true
same_status dead dead = true
same_status _ _ = false

pub record Job : Type 0 where
  pub id : String
  pub tenant_id : Option String
  pub event : OutboxEvent
  pub idempotency_key : String
  pub status : Status
  pub attempts : ℕ
  pub next_attempt_at : ℕ
  pub locked_at : Option ℕ
  pub locked_by : Option String
  pub last_error : Option String
  pub replay_count : ℕ
  pub last_replayed_at : Option ℕ
  pub last_replay_reason : Option String
  pub created_at : ℕ
  pub updated_at : ℕ
  pub completed_at : Option ℕ

-- The first `n` characters of a text.
pub first_characters : ℕ → String → String
first_characters zero s = ""
first_characters (suc n) String.[] = ""
first_characters (suc n) (String.◌∷◌ c s) = String.◌∷◌ c (first_characters n s)

-- The trimmed text, if there is one.
unfoldable pub required_text : String → String → Result String
required_text value label =
    if trim value === "" then throw (label ⧺ " is required.") else ok (trim value)

-- What follows a text that was accepted.
pub required_text-bind :
    {B : Type 0} {b : B} (v label : String) (f : String → Result B)
    → (required_text v label >>= f) ≡ ok b
    → (t : String) × (f t ≡ ok b)
required_text-bind v label f h =
    let (t, accepted, rest) = bind_inversion (required_text v label) f h in (t, rest)

-- `String(error?.message ?? error).slice(0, 4000)` for an Error object.
unfoldable pub bounded_error : String → String
unfolding first_characters
bounded_error message = first_characters 4000 message

count_characters : String → ℕ
count_characters String.[] = 0
count_characters (String.◌∷◌ c s) = suc (count_characters s)

-- `/[\u0000-\u001f\u007f]/.test(text)`
has_control : String → Bool
has_control String.[] = false
has_control (String.◌∷◌ c s) = ltb (code c) 32 || code c == 127 || has_control s

unfoldable pub normalized_replay_reason : String → Result String
unfolding required_text count_characters has_control
normalized_replay_reason value = do
  reason ← required_text value "Replay reason"
  throw_if (ltb 500 (count_characters reason) || has_control reason)
      "Replay reason must be at most 500 printable characters."
  ok reason

unfoldable pub default_idempotency_key : OutboxEvent → String
default_idempotency_key e =
    e.event_type
    ⧺ ":"
    ⧺ decimal (get_or e.event_version 1)
    ⧺ ":"
    ⧺ e.aggregate_type
    ⧺ ":"
    ⧺ e.aggregate_id

-- `===` on texts that may be null.
abbrev pub same_text : Option String → Option String → Bool
same_text none none = true
same_text (some s) (some t) = s === t
same_text none (some t) = false
same_text (some s) none = false

-- A job that is missing is `none`.
unfoldable pub same_logical_event : Option Job → OutboxEvent → Bool
same_logical_event none candidate = false
same_logical_event (some existing) candidate =
    same_text existing.tenant_id candidate.tenant_id
    && (existing.event.event_type === candidate.event_type)
    && (get_or existing.event.event_version 1 == get_or candidate.event_version 1)
    && (existing.event.aggregate_type === candidate.aggregate_type)
    && (existing.event.aggregate_id === candidate.aggregate_id)

abbrev pub idempotency_conflict {ℓ} : {A : Type ℓ} → Result A
idempotency_conflict =
    throw_code "Outbox idempotency key is already bound to a different logical event."
      "outbox_idempotency_conflict"

unfoldable pub new_job : OutboxEvent → Option String → ℕ → Result Job
new_job event key now = do
  id ← required_text event.id "Outbox event id"
  event_type ← required_text event.event_type "Outbox event type"
  aggregate_type ← required_text event.aggregate_type "Outbox aggregate type"
  aggregate_id ← required_text event.aggregate_id "Outbox aggregate id"
  idempotency_key ←
      required_text (get_or key (default_idempotency_key event)) "Outbox idempotency key"
  ok (record {
    id = id;
    tenant_id = event.tenant_id;
    event = event;
    idempotency_key = idempotency_key;
    status = pending;
    attempts = 0;
    next_attempt_at = now;
    locked_at = none;
    locked_by = none;
    last_error = none;
    replay_count = 0;
    last_replayed_at = none;
    last_replay_reason = none;
    created_at = now;
    updated_at = now;
    completed_at = none;
  })

unfoldable pub backoff_ms : ℕ → ℕ → ℕ → ℕ
backoff_ms attempts base_backoff max_backoff = min max_backoff (base_backoff * 2 ^ (attempts - 1))
