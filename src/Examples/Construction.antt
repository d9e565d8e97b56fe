-- ===== src/Examples/Construction.antt =====
-- An update of a field item.
use xygo_aec.Base.{true, ok, ◌≡◌, refl, str, nil, null, arr}
use xygo_aec.Access.{assert_scope}
use xygo_aec.Audit.{create_audit_event, create_outbox_event, seal, base_event, usable_key}
use xygo_aec.Emission.{emit, transition_event, aggregate_event}
use xygo_aec.Construction.{FieldItem, FieldItemUpdated, update_field_item_status}
use xygo_aec.Examples.Data.{crypto, ambient, session}

abbrev item : FieldItem
item = record {
  id = "f1";
  tenant_id = "tenant-a";
  project_id = "p1";
  item_type = "defect";
  title = "Crack";
  status = "open";
  location = null;
  photo_fixture_refs = arr nil;
  related_sheet_ids = arr nil;
  related_model_ids = arr nil;
  responsible_party = null;
  due_date = null;
  resolution = null;
  cost_impact_placeholder = null;
  staged = true;
}

resolved :
    (r : FieldItemUpdated) × (update_field_item_status crypto ambient session item "resolved"
        (str "filled")
      ≡ ok r)
unfolding update_field_item_status assert_scope emit transition_event aggregate_event
    create_audit_event create_outbox_event seal base_event usable_key
resolved = (_, refl)
