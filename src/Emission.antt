-- ===== src/Emission.antt =====
-- The pair of an audit event and an outbox event that the packages emit for a change, through
-- packages/audit/src/foundation.js.
use xygo_aec.Base.{
  String, List, [], ◌∷◌, none, some, Result, ok, ◌>>=◌, Value, Values, undefined, null, str, arr,
  obj, nil, cons, field, end, ◌or_else◌, ◌≡◌, refl, bind_inversion, ok-injective, throw_if-bind,
}
use xygo_aec.Audit.{
  Crypto, Ambient, AuditInput, AuditEvent, create_audit_event, seal, base_event, OutboxInput,
  OutboxEvent, create_outbox_event,
}

-- `{ tenantId, actorType: "user", actorId, action, resourceType, resourceId }`
unfoldable pub user_event : String → String → String → String → String → AuditInput
user_event tenant_id actor_id action resource_type resource_id = record {
  event_id = undefined;
  tenant_id = str tenant_id;
  actor_type = str "user";
  actor_id = str actor_id;
  action = str action;
  resource_type = str resource_type;
  resource_id = str resource_id;
  before_state_ref = undefined;
  after_state_ref = undefined;
  correlation_id = undefined;
  request_id = undefined;
  timestamp = undefined;
  previous_hash = undefined;
  signing_key = none;
}

-- The same with `beforeStateRef`, `afterStateRef` and `correlationId`.
unfoldable pub transition_event :
    String → String → String → String → String → Value → Value → Value → AuditInput
unfolding user_event
transition_event tenant_id actor_id action resource_type resource_id before after correlation =
    let base = user_event tenant_id actor_id action resource_type resource_id in
    record base { before_state_ref = before; after_state_ref = after; correlation_id = correlation }

-- `{ eventType, aggregateType, aggregateId, tenantId, payload }`
unfoldable pub aggregate_event : String → String → String → String → Value → OutboxInput
aggregate_event event_type aggregate_type aggregate_id tenant_id payload = record {
  id = none;
  event_type = event_type;
  event_version = none;
  aggregate_type = aggregate_type;
  aggregate_id = aggregate_id;
  tenant_id = some tenant_id;
  payload = payload;
  occurred_at = none;
}

pub record Emitted : Type 0 where
  pub audit_event : AuditEvent
  pub outbox_event : OutboxEvent

unfoldable pub emit : Crypto → Ambient → AuditInput → OutboxInput → Result Emitted
emit c a audit outbox = do
  audit_event ← create_audit_event c a audit
  outbox_event ← create_outbox_event a outbox
  ok (record { audit_event = audit_event; outbox_event = outbox_event })

abbrev text_values : List String → Values
text_values [] = nil
text_values (s ∷ ss) = cons (str s) (text_values ss)

-- An array of texts.
abbrev pub texts : List String → Value
texts ss = arr (text_values ss)

-- An object with one text.
abbrev pub one_field : String → String → Value
one_field k s = obj (field k (str s) end)

-- Both events of a change, when both are made.
pub emit_sound :
    (c : Crypto) (a : Ambient) (audit : AuditInput) (outbox : OutboxInput) (r : Emitted)
    → emit c a audit outbox ≡ ok r
    → (create_audit_event c a audit ≡ ok r.audit_event)
      × (create_outbox_event a outbox ≡ ok r.outbox_event)
unfolding emit
emit_sound c a audit outbox r h =
    let (e, made, h1) = bind_inversion (create_audit_event c a audit) _ h in
    let (o, put, h2) = bind_inversion (create_outbox_event a outbox) _ h1 in
    let same = ok-injective h2 in (rw (← same) made, rw (← same) put)

-- What an audit event says of a change.
pub record Records (e : AuditEvent) (tenant_id actor_id action resource_id : String) : Type 0 where
  pub tenant : e.tenant_id ≡ str tenant_id
  pub actor : e.actor_id ≡ str actor_id
  pub action_name : e.action ≡ str action
  pub resource : e.resource_id ≡ str resource_id

pub create_audit_event-fields :
    (c : Crypto) (a : Ambient) (input : AuditInput) (e : AuditEvent)
    → create_audit_event c a input ≡ ok e
    → (e.tenant_id ≡ input.tenant_id)
      × (e.action ≡ input.action)
      × (e.resource_id ≡ input.resource_id)
      × (e.actor_id ≡ input.actor_id or_else str "unknown")
      × (e.before_state_ref ≡ input.before_state_ref or_else null)
      × (e.after_state_ref ≡ input.after_state_ref or_else null)
unfolding create_audit_event seal base_event
create_audit_event-fields c a input e h =
    let (identified, k) = throw_if-bind _ _ _ h in
    let made = ok-injective k in rw (← made) (refl, refl, refl, refl, refl, refl)

pub create_outbox_event-fields :
    (a : Ambient) (input : OutboxInput) (e : OutboxEvent)
    → create_outbox_event a input ≡ ok e
    → (e.event_type ≡ input.event_type)
      × (e.aggregate_id ≡ input.aggregate_id)
      × (e.tenant_id ≡ input.tenant_id)
      × (e.status ≡ "pending")
unfolding create_outbox_event
create_outbox_event-fields a input e h =
    let (named, k) = throw_if-bind _ _ _ h in
    let made = ok-injective k in rw (← made) (refl, refl, refl, refl)

-- The outbox event that goes with a change.
pub record Announces (e : OutboxEvent) (event_type aggregate_id tenant_id : String) : Type 0 where
  pub name : e.event_type ≡ event_type
  pub aggregate : e.aggregate_id ≡ aggregate_id
  pub owner : e.tenant_id ≡ some tenant_id
  pub fresh : e.status ≡ "pending"

pub user_event-recorded :
    (c : Crypto) (a : Ambient) (tenant_id actor_id action kind id : String) (e : AuditEvent)
    → create_audit_event c a (user_event tenant_id actor_id action kind id) ≡ ok e
    → Records e tenant_id actor_id action id
unfolding user_event
user_event-recorded c a tenant_id actor_id action kind id e h =
    let (tenant, name, resource, actor, before, after) = create_audit_event-fields c a _ e h in
    record { tenant = tenant; actor = actor; action_name = name; resource = resource }

pub transition_event-recorded :
    (c : Crypto) (a : Ambient) (tenant_id actor_id action kind id : String)
    (before after correlation : Value) (e : AuditEvent)
    → create_audit_event c a
        (transition_event tenant_id actor_id action kind id before after correlation)
      ≡ ok e
    → Records e tenant_id actor_id action id
      × (e.before_state_ref ≡ before or_else null)
      × (e.after_state_ref ≡ after or_else null)
unfolding transition_event
transition_event-recorded c a tenant_id actor_id action kind id before after correlation e h =
    let (tenant, name, resource, actor, b, f) = create_audit_event-fields c a _ e h in
    (record { tenant = tenant; actor = actor; action_name = name; resource = resource }, b, f)

pub aggregate_event-announced :
    (a : Ambient) (name kind id tenant_id : String) (payload : Value) (e : OutboxEvent)
    → create_outbox_event a (aggregate_event name kind id tenant_id payload) ≡ ok e
    → Announces e name id tenant_id
unfolding aggregate_event
aggregate_event-announced a name kind id tenant_id payload e h =
    let (event_type, aggregate, tenant, status) = create_outbox_event-fields a _ e h in
    record { name = event_type; aggregate = aggregate; owner = tenant; fresh = status }
