-- ===== src/Email/Suppressions.antt =====
-- The suppression that an event of the provider makes, and the health of deliveries and worker, in
-- packages/email-delivery/src/index.js.
use xygo_aec.Base.{
  ℕ, ◌+◌, ◌-◌, String, Bool, false, not, ◌&&◌, List, [], ◌∷◌, Option, none, some, Result, ok, ◌>>=◌,
  ◌>>◌, throw_if, throw_code_if, includes, ◌⧺◌, ◌===◌, leb, keep, find, if◌then◌else◌,
}
use xygo_aec.Outbox.Jobs.{same_text}
use xygo_aec.Email.{EmailDelivery, assert_email_delivery, bounded_text, normalize_email_recipient}
use xygo_aec.Email.Provider.{EmailSuppression, ProviderEvent, time_of}

-- `SUPPRESSION_REASONS[type]`
unfoldable pub suppression_reason : String → Option String
suppression_reason t =
    if t === "email.bounced"
    then some "bounce"
    else if t === "email.complained"
    then some "complaint"
    else if t === "email.suppressed"
    then some "provider_suppression"
    else if t === "email.unsubscribed"
    then some "unsubscribe"
    else none

-- The text whose digest is the id: tenant and recipient with the character 0 between them.
abbrev identity_text : String → String → String
identity_text tenant_id recipient = tenant_id ⧺ "\0" ⧺ recipient

unfoldable pub suppression_for :
    (String → String) → EmailDelivery → ProviderEvent → String → String → Result EmailSuppression
suppression_for sha256 d e webhook_id reason = do
  throw_if (not (same_text e.email_id d.provider_message_id))
      "Email suppression webhook provider message does not match delivery."
  t ← time_of e.created_at
  recipient ← normalize_email_recipient d.recipient_email
  provider ← bounded_text "resend" "Email suppression provider" 100
  event_id ← bounded_text webhook_id "Email suppression provider event id" 200
  ok (record {
    id = "email-suppression-" ⧺ sha256 (identity_text d.tenant_id recipient);
    tenant_id = d.tenant_id;
    normalized_recipient = recipient;
    recipient_user_id = d.recipient_user_id;
    reason = reason;
    source = "provider_webhook";
    provider = provider;
    provider_event_id = event_id;
    provider_message_id = d.provider_message_id;
    delivery_id = d.id;
    resource_type = d.resource_type;
    resource_id = d.resource_id;
    created_at = t;
    updated_at = t;
  })

when_reason :
    (String → String)
    → EmailDelivery
    → ProviderEvent
    → String
    → Option String
    → Result (Option EmailSuppression)
when_reason sha256 d e webhook_id none = ok none
when_reason sha256 d e webhook_id (some reason) = do
  made ← suppression_for sha256 d e webhook_id reason
  ok (some made)

-- `none` for null.
unfoldable pub create_email_suppression_from_webhook :
    (String → String) → EmailDelivery → ProviderEvent → String → Result (Option EmailSuppression)
unfolding when_reason suppression_for
create_email_suppression_from_webhook sha256 d e webhook_id = do
  assert_email_delivery d
  when_reason sha256 d e webhook_id (suppression_reason e.kind)

pub record HealthOptions : Type 0 where
  pub now : ℕ
  pub stale_after_ms : ℕ
  pub max_failed : ℕ
  pub require_healthy : Bool

abbrev pub count_status : String → List EmailDelivery → ℕ
count_status status [] = 0
count_status status (d ∷ ds) = (if d.status === status then 1 else 0) + count_status status ds

abbrev pub is_stale : HealthOptions → EmailDelivery → Bool
is_stale o d =
    includes ("queued" ∷ "sending" ∷ "delayed" ∷ "failed" ∷ []) d.status
    && leb (d.updated_at + o.stale_after_ms) o.now

abbrev pub count_stale : HealthOptions → List EmailDelivery → ℕ
count_stale o [] = 0
count_stale o (d ∷ ds) = (if is_stale o d then 1 else 0) + count_stale o ds

abbrev assert_all : List EmailDelivery → Result (Unit {0})
assert_all [] = ok tt
assert_all (d ∷ ds) = assert_email_delivery d >> assert_all ds

pub record DeliveryHealth : Type 0 where
  pub ready : Bool
  pub counts : String → ℕ
  pub failures : ℕ
  pub stale : ℕ
  pub backlog : ℕ

unfoldable pub delivery_health : HealthOptions → List EmailDelivery → DeliveryHealth
delivery_health o ds =
    let counts = λ (status : String). count_status status ds in
    let failures = counts "failed" + counts "bounced" + counts "complained" in
    record {
      ready = leb (count_stale o ds) 0 && leb failures o.max_failed;
      counts = counts;
      failures = failures;
      stale = count_stale o ds;
      backlog = counts "queued" + counts "sending" + counts "delayed" + counts "failed";
    }

unfoldable pub summarize_email_delivery_health :
    HealthOptions → List EmailDelivery → Result DeliveryHealth
unfolding delivery_health
summarize_email_delivery_health o ds = do
  assert_all ds
  throw_code_if (o.require_healthy && not (delivery_health o ds).ready)
      "Email delivery health exceeded configured thresholds." "email_delivery_unhealthy"
  ok (delivery_health o ds)

pub record Heartbeat : Type 0 where
  pub service_name : String
  pub instance_id : String
  pub status : String
  pub last_seen_at : ℕ

-- One step of the stable sort: the newest first.
abbrev place : Heartbeat → List Heartbeat → List Heartbeat
place h [] = h ∷ []
place h (g ∷ gs) =
    let later = place h gs in if leb g.last_seen_at h.last_seen_at then h ∷ g ∷ gs else g ∷ later

abbrev newest_first : List Heartbeat → List Heartbeat
newest_first [] = []
newest_first (h ∷ hs) = place h (newest_first hs)

-- Subtraction stops at 0, as `Math.max(0, now - seen)` does.
abbrev pub is_live : ℕ → ℕ → Heartbeat → Bool
is_live now stale_after_ms h = (h.status === "ready") && leb (now - h.last_seen_at) stale_after_ms

abbrev first_heartbeat : List Heartbeat → Option Heartbeat
first_heartbeat [] = none
first_heartbeat (h ∷ hs) = some h

abbrev found_or_first : Option Heartbeat → List Heartbeat → Option Heartbeat
found_or_first none hs = first_heartbeat hs
found_or_first (some h) hs = some h

unfoldable pub active_heartbeat : ℕ → ℕ → List Heartbeat → Option Heartbeat
active_heartbeat now stale_after_ms heartbeats =
    let ordered = newest_first (keep (λ h. h.service_name === "worker") heartbeats) in
    found_or_first (find (is_live now stale_after_ms) ordered) ordered

pub record WorkerHealth : Type 0 where
  pub ready : Bool
  pub instance_id : Option String
  pub status : String
  pub last_seen_at : Option ℕ
  pub age_ms : Option ℕ

abbrev worker_health : ℕ → ℕ → Option Heartbeat → WorkerHealth
worker_health now stale_after_ms none = record {
  ready = false;
  instance_id = none;
  status = "missing";
  last_seen_at = none;
  age_ms = none;
}
worker_health now stale_after_ms (some h) = record {
  ready = is_live now stale_after_ms h;
  instance_id = some h.instance_id;
  status = h.status;
  last_seen_at = some h.last_seen_at;
  age_ms = some (now - h.last_seen_at);
}

unfoldable pub summarize_worker_heartbeat : ℕ → ℕ → Bool → List Heartbeat → Result WorkerHealth
unfolding active_heartbeat
summarize_worker_heartbeat now stale_after_ms require_healthy heartbeats = do
  let health = worker_health now stale_after_ms (active_heartbeat now stale_after_ms heartbeats)
  throw_code_if (require_healthy && not health.ready)
      "Worker heartbeat is missing, stale, or unhealthy." "worker_heartbeat_unhealthy"
  ok health
