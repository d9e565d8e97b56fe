-- ===== src/Construction.antt =====
-- packages/construction/src/index.js: items found on a site and their status.
pub mod Updating
use xygo_aec.Base.{
  String, Bool, true, false, not, ◌&&◌, List, [], ◌∷◌, Result, ok, ◌>>=◌, ◌>>◌, throw_if, includes,
  ◌⧺◌, ◌===◌, Value, nil, undefined, null, str, arr, member, truthy, ◌or_else◌, required_string,
}
use xygo_aec.Access.{Session, assert_scope}
use xygo_aec.Audit.{Crypto, Ambient, AuditEvent, OutboxEvent}
use xygo_aec.Emission.{transition_event, aggregate_event, emit, one_field}

abbrev pub field_item_statuses : List String
field_item_statuses = "open" ∷ "triaged" ∷ "in_progress" ∷ "resolved" ∷ "closed" ∷ "deferred" ∷ []

pub record FieldItem : Type 0 where
  pub id : String
  pub tenant_id : String
  pub project_id : String
  pub item_type : String
  pub title : String
  pub status : String
  pub location : Value
  pub photo_fixture_refs : Value
  pub related_sheet_ids : Value
  pub related_model_ids : Value
  pub responsible_party : Value
  pub due_date : Value
  pub resolution : Value
  pub cost_impact_placeholder : Value
  pub staged : Bool

unfoldable pub create_field_item : Value → Result FieldItem
create_field_item input = do
  id ← required_string (member input "id") "Field item id"
  tenant_id ← required_string (member input "tenantId") "Field item tenantId"
  project_id ← required_string (member input "projectId") "Field item projectId"
  item_type ← required_string (member input "itemType") "Field item itemType"
  status ← required_string (member input "status") "Field item status"
  title ← required_string (member input "title") "Field item title"
  throw_if (not (includes field_item_statuses status)) ("Unknown field item status: " ⧺ status)
  ok (record {
    id = id;
    tenant_id = tenant_id;
    project_id = project_id;
    item_type = item_type;
    title = title;
    status = status;
    location = member input "location" or_else null;
    photo_fixture_refs = member input "photoFixtureRefs" or_else arr nil;
    related_sheet_ids = member input "relatedSheetIds" or_else arr nil;
    related_model_ids = member input "relatedModelIds" or_else arr nil;
    responsible_party = member input "responsibleParty" or_else null;
    due_date = member input "dueDate" or_else null;
    resolution = member input "resolution" or_else null;
    cost_impact_placeholder = member input "costImpactPlaceholder" or_else null;
    staged = true;
  })

pub record FieldItemUpdated : Type 0 where
  pub field_item : FieldItem
  pub audit_event : AuditEvent
  pub outbox_event : OutboxEvent

-- A resolution left out is null.
unfoldable pub update_field_item_status :
    Crypto → Ambient → Session → FieldItem → String → Value → Result FieldItemUpdated
update_field_item_status c a session item next resolution = do
  assert_scope session item.tenant_id item.project_id
  throw_if (not (includes field_item_statuses next)) ("Unknown field item status: " ⧺ next)
  throw_if ((next === "resolved") && not (truthy resolution))
      "Field item resolution is required before resolving."
  events ←
      emit c a
        (transition_event item.tenant_id session.user_id "construction.field_item.updated"
          "field_item" item.id (str item.status) (str next) undefined)
        (aggregate_event "construction.field_item.updated" "field_item" item.id item.tenant_id
          (one_field "nextStatus" next))
  ok (record {
    field_item = record item { status = next; resolution = resolution or_else item.resolution };
    audit_event = events.audit_event;
    outbox_event = events.outbox_event;
  })
