-- ===== src/Audit.antt =====
-- packages/audit/src/foundation.js: audit events with their hash and signature, and outbox events.
-- The children model the serialisation and the verification of a chain.
pub mod Json
pub mod Chain
pub mod Links
pub mod Evidence
pub mod Tampering
use Json.{stable_serialize}
use xygo_aec.Base.{
  ℕ, String, Bool, true, false, not, ◌&&◌, ◌||◌, Option, none, some, Result, ok, ◌>>◌, throw_if,
  ◌===◌, Value, null, bool, num, str, obj, field, end, truthy, ◌or_else◌, text_or_null,
  if◌then◌else◌,
}

-- The functions of node:crypto, with hexadecimal digests.
pub record Crypto : Type 0 where
  pub sha256 : String → String
  pub hmac_sha256 : String → String → String

-- What `crypto.randomUUID()` and `new Date().toISOString()` give during a call.
pub record Ambient : Type 0 where
  pub event_uuid : String
  pub correlation_uuid : String
  pub request_uuid : String
  pub outbox_uuid : String
  pub now : String

pub record AuditInput : Type 0 where
  pub event_id : Value
  pub tenant_id : Value
  pub actor_type : Value
  pub actor_id : Value
  pub action : Value
  pub resource_type : Value
  pub resource_id : Value
  pub before_state_ref : Value
  pub after_state_ref : Value
  pub correlation_id : Value
  pub request_id : Value
  pub timestamp : Value
  pub previous_hash : Value
  pub signing_key : Option String

pub record AuditEvent : Type 0 where
  pub event_id : Value
  pub tenant_id : Value
  pub actor_type : Value
  pub actor_id : Value
  pub action : Value
  pub resource_type : Value
  pub resource_id : Value
  pub before_state_ref : Value
  pub after_state_ref : Value
  pub correlation_id : Value
  pub request_id : Value
  pub schema_version : Value
  pub staged : Value
  pub timestamp : Value
  pub previous_hash : Value
  pub event_hash : String
  pub signature : Option String

-- `baseEvent`, with no hash yet.
unfoldable pub base_event : Ambient → AuditInput → AuditEvent
base_event a input = record {
  event_id = input.event_id or_else str a.event_uuid;
  tenant_id = input.tenant_id;
  actor_type = input.actor_type or_else str "system";
  actor_id = input.actor_id or_else str "unknown";
  action = input.action;
  resource_type = input.resource_type;
  resource_id = input.resource_id;
  before_state_ref = input.before_state_ref or_else null;
  after_state_ref = input.after_state_ref or_else null;
  correlation_id = input.correlation_id or_else str a.correlation_uuid;
  request_id = input.request_id or_else str a.request_uuid;
  schema_version = num 1;
  staged = bool true;
  timestamp = input.timestamp or_else str a.now;
  previous_hash = input.previous_hash or_else null;
  event_hash = "";
  signature = none;
}

-- `{ ...baseEvent, previousHash }`
unfoldable pub hashed_content : AuditEvent → Value
hashed_content e = obj (
    field "eventId" e.event_id (
      field "tenantId" e.tenant_id (
        field "actorType" e.actor_type (
          field "actorId" e.actor_id (
            field "action" e.action (
              field "resourceType" e.resource_type (
                field "resourceId" e.resource_id (
                  field "beforeStateRef" e.before_state_ref (
                    field "afterStateRef" e.after_state_ref (
                      field "correlationId" e.correlation_id (
                        field "requestId" e.request_id (
                          field "schemaVersion" e.schema_version (
                            field "staged" e.staged (
                              field "timestamp" e.timestamp
                                (field "previousHash" e.previous_hash end)))))))))))))))

-- `if (key)` for a key that may be null, and the empty text is no key either.
unfoldable pub usable_key : Option String → Option String
usable_key none = none
usable_key (some k) = if k === "" then none else some k

abbrev pub sign : Crypto → Option String → String → Option String
sign c none hash = none
sign c (some k) hash = some (c.hmac_sha256 k hash)

unfoldable pub seal : Crypto → Option String → AuditEvent → AuditEvent
seal c key e =
    let hash = c.sha256 (stable_serialize (hashed_content e)) in
    record e { event_hash = hash; signature = sign c (usable_key key) hash }

abbrev pub is_identified : AuditInput → Bool
is_identified input =
    truthy input.tenant_id
    && truthy input.action
    && truthy input.resource_type
    && truthy input.resource_id

unfoldable pub create_audit_event : Crypto → Ambient → AuditInput → Result AuditEvent
create_audit_event c a input = do
  throw_if (not (is_identified input))
      "Audit events require tenantId, action, resourceType, and resourceId."
  ok (seal c input.signing_key (base_event a input))

pub record OutboxInput : Type 0 where
  pub id : Option String
  pub event_type : String
  pub event_version : Option ℕ
  pub aggregate_type : String
  pub aggregate_id : String
  pub tenant_id : Option String
  pub payload : Value
  pub occurred_at : Option String

pub record OutboxEvent : Type 0 where
  pub id : String
  pub event_type : String
  pub event_version : Option ℕ
  pub aggregate_type : String
  pub aggregate_id : String
  pub tenant_id : Option String
  pub payload : Value
  pub staged : Bool
  pub status : String
  pub occurred_at : String

abbrev pub get_or {ℓ} : {A : Type ℓ} → Option A → A → A
get_or none d = d
get_or (some a) d = a

unfoldable pub create_outbox_event : Ambient → OutboxInput → Result OutboxEvent
create_outbox_event a input = do
  throw_if
      ((input.event_type === "") || (input.aggregate_type === "") || (input.aggregate_id === ""))
      "Outbox events require eventType, aggregateType, and aggregateId."
  ok (record {
    id = get_or input.id a.outbox_uuid;
    event_type = input.event_type;
    event_version = some (get_or input.event_version 1);
    aggregate_type = input.aggregate_type;
    aggregate_id = input.aggregate_id;
    tenant_id = input.tenant_id;
    payload = input.payload or_else obj end;
    staged = true;
    status = "pending";
    occurred_at = get_or input.occurred_at a.now;
  })
