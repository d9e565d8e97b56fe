-- ===== src/Construction/Updating.antt =====
-- What `updateFieldItemStatus` of packages/construction/src/index.js accepts and does.
use xygo_aec.Base.{
  String, Bool, true, false, not, ◌&&◌, ok, includes, ◌===◌, Value, str, truthy, ◌or_else◌, ◌≡◌,
  refl, arith, eq_iff, bind_inversion, ok-injective, throw_if-bind, not-eq_false,
}
use xygo_aec.Access.{Session, assert_scope-bind, InScope}
use xygo_aec.Audit.{Crypto, Ambient}
use xygo_aec.Emission.{
  transition_event-recorded, aggregate_event-announced, emit, emit_sound, Records, Announces,
}
use xygo_aec.Construction.{
  field_item_statuses, FieldItem, FieldItemUpdated, update_field_item_status,
}

-- What an update leaves behind.
pub record Updated (session : Session) (item : FieldItem) (next : String) (resolution : Value)
    (r : FieldItemUpdated) : Type 0 where
  pub scope : InScope session item.tenant_id item.project_id
  pub known : includes field_item_statuses next ≡ true
  pub resolved : next ≡ "resolved" → truthy resolution ≡ true
  pub updated :
      r.field_item ≡ record item { status = next; resolution = resolution or_else item.resolution }
  pub recorded :
      Records r.audit_event item.tenant_id session.user_id "construction.field_item.updated" item.id
  pub before : r.audit_event.before_state_ref ≡ str item.status
  pub after : r.audit_event.after_state_ref ≡ str next
  pub announced : Announces r.outbox_event "construction.field_item.updated" item.id item.tenant_id

resolution_given :
    (next : String) (given : Bool)
    → ((next === "resolved") && not given) ≡ false
    → next ≡ "resolved"
    → given ≡ true
resolution_given next given h e = ground (arith, eq_iff next "resolved")

-- An update of a field item that succeeds was made by a staged session of the item's tenant with
-- access to its project, to a known status, with a resolution if the item is resolved. It changes the
-- status and, where one is given, the resolution, and both of its events name the item and its
-- tenant, the audit event the session's user and the two statuses too.
pub update_field_item_status_sound :
    (c : Crypto) (a : Ambient) (session : Session) (item : FieldItem) (next : String)
    (resolution : Value) (r : FieldItemUpdated)
    → update_field_item_status c a session item next resolution ≡ ok r
    → Updated session item next resolution r
unfolding update_field_item_status
update_field_item_status_sound c a session item next resolution r h =
    let (scope, h1) = assert_scope-bind _ _ _ _ h in
    let (known, h2) = throw_if-bind _ _ _ h1 in
    let (given, h3) = throw_if-bind _ _ _ h2 in
    let (events, emitted, h4) = bind_inversion (emit _ _ _ _) _ h3 in
    let (audit, outbox) = emit_sound _ _ _ _ events emitted in
    let (recorded, before, after) = transition_event-recorded _ _ _ _ _ _ _ _ _ _ _ audit in
    let made = ok-injective h4 in
    rw (← made) (record {
      scope = scope;
      known = not-eq_false _ known;
      resolved = resolution_given next _ given;
      updated = refl;
      recorded = recorded;
      before = before;
      after = after;
      announced = aggregate_event-announced _ _ _ _ _ _ _ outbox;
    })
