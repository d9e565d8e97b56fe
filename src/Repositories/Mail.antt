-- ===== src/Repositories/Mail.antt =====
-- The operations of apps/api/src/repositories/memory.js on files and emails, on the suppressions of
-- recipients and on heartbeats.
pub mod Repeating
use xygo_aec.Base.{
  ℕ, String, Bool, true, false, not, List, [], ◌∷◌, ◌++◌, Option, none, some, Result, ok, err,
  throw_code, ◌>>=◌, ◌>>◌, throw_if, ◌===◌, ◌==◌, ◌⧺◌, keep, find, any, if◌then◌else◌, Value,
  undefined, null, bool, num, str, is_text,
}
use xygo_aec.Audit.{AuditEvent}
use xygo_aec.Audit.Links.{last_hash}
use xygo_aec.Outbox.Jobs.{same_text}
use xygo_aec.FileStorage.{StoredFile}
use xygo_aec.Email.{EmailDelivery, email_delivery_intent_matches, normalize_email_recipient}
use xygo_aec.Email.Provider.{
  EmailSuppression, ProviderEvent, merge_email_suppression, apply_email_webhook_status,
}
use xygo_aec.Email.Suppressions.{
  Heartbeat, create_email_suppression_from_webhook, HealthOptions, DeliveryHealth, WorkerHealth,
  summarize_email_delivery_health, summarize_worker_heartbeat,
}
use xygo_aec.Repositories.{Repository}
use xygo_aec.Repositories.Maps.{get, has, set, values}
use xygo_aec.Repositories.Memory.{insert_new}

unfoldable pub list_file_records_by_tenant : Repository → String → List StoredFile
list_file_records_by_tenant r tenant_id =
    keep (λ f. f.tenant_id === tenant_id) (values r.file_records)

unfoldable pub get_file_record_by_id : Repository → String → Option StoredFile
get_file_record_by_id r id = get id r.file_records

unfoldable pub create_file_record : Repository → StoredFile → Result (Repository × StoredFile)
create_file_record r file = do
  file_records ← insert_new "File id already exists." file.id file r.file_records
  ok (record r { file_records = file_records }, file)

unfoldable pub save_file_record : Repository → StoredFile → Result (Repository × StoredFile)
save_file_record r file = do
  throw_if (not (has file.id r.file_records)) "File record not found."
  ok (record r { file_records = set file.id file r.file_records }, file)

unfoldable pub finalize_file_record :
    Repository → StoredFile → AuditEvent → Result (Repository × StoredFile)
finalize_file_record r file event = do
  throw_if (not (has file.id r.file_records)) "File record not found."
  ok (
    record r {
      file_records = set file.id file r.file_records;
      audit_events = r.audit_events ++ event ∷ [];
    },
    file,
  )

-- `{ created, delivery }`
pub record Queued : Type 0 where
  pub created : Bool
  pub delivery : EmailDelivery

insert_delivery : Repository → EmailDelivery → Option EmailDelivery → Result (Repository × Queued)
insert_delivery r delivery (some existing) =
    if email_delivery_intent_matches existing delivery
    then ok (r, record { created = false; delivery = existing })
    else throw_code "Email delivery idempotency key is bound to a different logical delivery."
        "email_idempotency_conflict"
insert_delivery r delivery none =
    insert_new "Email delivery id already exists." delivery.id delivery r.email_deliveries
    >>= λ email_deliveries. ok (
      record r { email_deliveries = email_deliveries },
      record { created = true; delivery = delivery },
    )

-- The delivery that has the key, if there is one.
abbrev pub delivery_of_key : Repository → String → Option EmailDelivery
delivery_of_key r key = find (λ d. d.idempotency_key === key) (values r.email_deliveries)

unfoldable pub create_email_delivery : Repository → EmailDelivery → Result (Repository × Queued)
unfolding insert_delivery
create_email_delivery r delivery =
    insert_delivery r delivery (delivery_of_key r delivery.idempotency_key)

unfoldable pub get_email_delivery_by_id : Repository → String → Option EmailDelivery
get_email_delivery_by_id r id = get id r.email_deliveries

unfoldable pub list_email_deliveries_by_tenant : Repository → String → List EmailDelivery
list_email_deliveries_by_tenant r tenant_id =
    keep (λ d. d.tenant_id === tenant_id) (values r.email_deliveries)

abbrev pub suppression_key : String → String → String
suppression_key tenant_id recipient = tenant_id ⧺ ":" ⧺ recipient

unfoldable pub get_email_suppression :
    Repository → String → String → Result (Option EmailSuppression)
get_email_suppression r tenant_id recipient_email = do
  recipient ← normalize_email_recipient recipient_email
  ok (get (suppression_key tenant_id recipient) r.email_suppressions)

unfoldable pub list_email_suppressions_by_tenant : Repository → String → List EmailSuppression
list_email_suppressions_by_tenant r tenant_id =
    keep (λ s. s.tenant_id === tenant_id) (values r.email_suppressions)

unfoldable pub save_email_delivery :
    Repository → EmailDelivery → Result (Repository × EmailDelivery)
save_email_delivery r delivery = do
  throw_if (not (has delivery.id r.email_deliveries)) "Email delivery not found."
  ok (record r { email_deliveries = set delivery.id delivery r.email_deliveries }, delivery)

-- The audit event of a change: made from the hash of the last event of the tenant, given, or none.
pub data Evidence : Type 0 where
  made_from : (Value → AuditEvent) → Evidence
  given : AuditEvent → Evidence
  without_event : Evidence

-- `previous?.eventHash ?? null`
abbrev pub previous_hash : Repository → String → Value
previous_hash r tenant_id =
    last_hash null (keep (λ e. is_text e.tenant_id tenant_id) r.audit_events)

evidence_for : Evidence → Value → Option AuditEvent
evidence_for (made_from factory) hash = some (factory hash)
evidence_for (given event) hash = some event
evidence_for without_event hash = none

-- `===` on ids. Objects are never the same.
abbrev same_id : Value → Value → Bool
same_id (str s) v = is_text v s
same_id (num n) (num m) = n == m
same_id (bool b) (bool c) = if b then c else not c
same_id undefined undefined = true
same_id null null = true
same_id v w = false

-- An event is appended once.
append_once : List AuditEvent → Option AuditEvent → List AuditEvent
append_once events none = events
append_once events (some event) =
    if any (λ e. same_id e.event_id event.event_id) events then events else events ++ event ∷ []

unfoldable pub finalize_email_delivery :
    Repository → EmailDelivery → Evidence → Result (Repository × EmailDelivery)
unfolding evidence_for append_once
finalize_email_delivery r delivery evidence = do
  throw_if (not (has delivery.id r.email_deliveries)) "Email delivery not found."
  ok (
    record r {
      email_deliveries = set delivery.id delivery r.email_deliveries;
      audit_events =
          append_once r.audit_events (evidence_for evidence (previous_hash r delivery.tenant_id));
    },
    delivery,
  )

-- `{ duplicate, delivery }`
pub record Applied : Type 0 where
  pub duplicate : Bool
  pub delivery : Option EmailDelivery

merge_into : Repository → Option EmailSuppression → Result (List (String × EmailSuppression))
merge_into r none = ok r.email_suppressions
merge_into r (some incoming) =
    let key = suppression_key incoming.tenant_id incoming.normalized_recipient in
    merge_email_suppression (get key r.email_suppressions) incoming >>= λ merged.
    ok (set key merged r.email_suppressions)

-- The writes after the delivery was updated. An exception leaves the delivery written, and nothing else.
after_suppressions :
    Repository
    → String
    → ProviderEvent
    → Evidence
    → EmailDelivery
    → Result (List (String × EmailSuppression))
    → Repository × Result Applied
unfolding evidence_for append_once
after_suppressions r webhook_id event evidence updated (err thrown) = (r, err thrown)
after_suppressions r webhook_id event evidence updated (ok suppressions) = (
  record r {
    email_suppressions = suppressions;
    email_webhook_events =
        set webhook_id (record { id = webhook_id; tenant_id = updated.tenant_id; event = event })
          r.email_webhook_events;
    audit_events =
        append_once r.audit_events (evidence_for evidence (previous_hash r updated.tenant_id));
  },
  ok (record { duplicate = false; delivery = some updated }),
)

after_status :
    (String → String)
    → Repository
    → String
    → ProviderEvent
    → (EmailDelivery → Evidence)
    → Result EmailDelivery
    → Repository × Result Applied
unfolding after_suppressions merge_into
after_status sha256 r webhook_id event evidence (err thrown) = (r, err thrown)
after_status sha256 r webhook_id event evidence (ok updated) =
    let written = record r { email_deliveries = set updated.id updated r.email_deliveries } in
    after_suppressions written webhook_id event (evidence updated) updated (
      create_email_suppression_from_webhook sha256 updated event webhook_id >>= λ incoming.
      merge_into written incoming)

-- The first delivery with the provider's id of the message; `none` stands for null.
abbrev pub delivery_of_message : Repository → Option String → Option EmailDelivery
delivery_of_message r email_id =
    find (λ d. same_text d.provider_message_id email_id) (values r.email_deliveries)

apply_to_found :
    (String → String)
    → Repository
    → String
    → ProviderEvent
    → (EmailDelivery → Evidence)
    → Option EmailDelivery
    → Repository × Result Applied
unfolding after_status
apply_to_found sha256 r webhook_id event evidence none =
    (r, ok (record { duplicate = false; delivery = none }))
apply_to_found sha256 r webhook_id event evidence (some delivery) =
    after_status sha256 r webhook_id event evidence (apply_email_webhook_status delivery event)

-- What the audit event is made of may depend on the updated delivery.
unfoldable pub apply_email_webhook :
    (String → String)
    → Repository
    → String
    → ProviderEvent
    → (EmailDelivery → Evidence)
    → Repository × Result Applied
unfolding apply_to_found
apply_email_webhook sha256 r webhook_id event evidence =
    if has webhook_id r.email_webhook_events
    then (r, ok (record { duplicate = true; delivery = none }))
    else apply_to_found sha256 r webhook_id event evidence (delivery_of_message r event.email_id)

unfoldable pub record_service_heartbeat : Repository → Heartbeat → Repository
record_service_heartbeat r h = record r {
  service_heartbeats = set (h.service_name ⧺ ":" ⧺ h.instance_id) h r.service_heartbeats;
}

unfoldable pub check_email_delivery_readiness : Repository → HealthOptions → Result DeliveryHealth
check_email_delivery_readiness r o = summarize_email_delivery_health o (values r.email_deliveries)

unfoldable pub check_worker_readiness : Repository → ℕ → ℕ → Bool → Result WorkerHealth
check_worker_readiness r now stale_after_ms require_healthy =
    summarize_worker_heartbeat now stale_after_ms require_healthy (values r.service_heartbeats)
