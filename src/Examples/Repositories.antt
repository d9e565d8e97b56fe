-- ===== src/Examples/Repositories.antt =====
-- The memory repository and its collections: two tenants, a project, an issue.
use xygo_aec.Base.{
  true, false, List, [], ◌∷◌, ◌++◌, none, some, trim, to_lower, is_blank, ◌≡◌, refl, Value, str,
  obj, field, end, required_string, ok,
}
use xygo_aec.Contracts.{Project, assert_staged}
use xygo_aec.Contracts
use xygo_aec.Audit.{create_audit_event, create_outbox_event, seal, base_event, usable_key}
use xygo_aec.Emission.{transition_event, user_event, aggregate_event}
use xygo_aec.Outbox.Jobs.{required_text, new_job}
use xygo_aec.Outbox.Store.{empty, enqueue, enqueue_found, lookup_key, find_job}
use xygo_aec.Outbox.Processing.{enqueue_outbox_event}
use xygo_aec.Repositories.{Repository, Item, project}
use xygo_aec.Repositories.Memory.{insert_new}
use xygo_aec.Repositories.Specification.{Call, view, run, spec_run}
use xygo_aec.Repositories.Refinement.{run_refines}
use xygo_aec.Api.Collections.{
  Created, World, Request, Response, created, persist, handle_collection_create,
}
use xygo_aec.Api.Collections.Table.{
  projects, collection_resource, list_collection, guard_collection, create_in_collection,
}
use xygo_aec.Api.Collections.Effects.{
  handle_collection_create_isolated, handle_collection_create_visible,
}
use xygo_aec.Email.{
  EmailDelivery, email_delivery_intent_matches, assert_email_delivery, bounded_text, email_address,
  is_address_from, webhook_status,
}
use xygo_aec.Email.Provider.{
  ProviderEvent, at_time, time_of, with_status, apply_email_webhook_status,
}
use xygo_aec.Email.Suppressions.{create_email_suppression_from_webhook, suppression_reason}
use xygo_aec.Repositories.Mail.{Evidence, without_event, create_email_delivery, apply_email_webhook}
use xygo_aec.Repositories.Mail.Repeating.{create_email_delivery-once, apply_email_webhook-once}
use xygo_aec.Examples.Email.{delivery}
use xygo_aec.Examples.Data.{crypto, ambient}

abbrev pub other_project : Project
other_project = record {
  id = "p9";
  tenant_id = "tenant-b";
  name = "Depot";
  project_type = str "commercial";
  status = str "draft";
  staged = true;
}

abbrev pub repository : Repository
repository = record {
  projects = ("p9", other_project) ∷ [];
  issues = [];
  rfis = [];
  permits = [];
  review_sessions = [];
  ai_review_runs = [];
  ai_findings = [];
  platform_blueprints = [];
  field_reports = [];
  file_records = [];
  email_deliveries = [];
  email_suppressions = [];
  email_webhook_events = [];
  service_heartbeats = [];
  audit_events = [];
}

abbrev body : Value
body = obj (field "id" (str "p1") (field "name" (str "Tower") end))

abbrev tower : Value
tower =
    obj (field "id" (str "p1") (field "tenantId" (str "tenant-a") (field "name" (str "Tower") end)))

-- The second call finds the id taken.
abbrev calls : List Call
calls =
    Call.create_project tower
    ∷ Call.create_project tower
    ∷ Call.set_ai_finding_disposition "f1" "accepted" tower
    ∷ []

run_refines_example :
    spec_run calls (view repository) ≡ (view (run calls repository).0, (run calls repository).1)
run_refines_example = run_refines calls repository

abbrev request : Request
request = record {
  parsed = body;
  tenant_id = "tenant-a";
  actor_id = some "ana";
  signing_key = none;
  now = 10;
}

abbrev world : World Repository
world = record { rows = repository; audit_events = []; outbox = empty }

abbrev answer : World Repository × Response Item
answer = handle_collection_create crypto ambient false (collection_resource projects) request world

handle_collection_create_isolated_example :
    list_collection projects answer.0.rows "tenant-b"
    ≡ list_collection projects repository "tenant-b"
handle_collection_create_isolated_example =
    handle_collection_create_isolated crypto ambient false projects request world projects
      "tenant-b" refl

abbrev tower_project : Project
tower_project = record {
  id = "p1";
  tenant_id = "tenant-a";
  name = "Tower";
  project_type = str "commercial";
  status = str "draft";
  staged = true;
}

abbrev made : Created Item
made = record { id = "p1"; item = project tower_project }

answered :
    (w : World Repository) × (handle_collection_create crypto ambient false
        (collection_resource projects)
        request
        world
      ≡ (w, created made))
unfolding handle_collection_create persist create_audit_event create_outbox_event seal base_event
    usable_key transition_event user_event aggregate_event required_text new_job enqueue
    enqueue_found lookup_key find_job enqueue_outbox_event trim is_blank required_string
    guard_collection create_in_collection insert_new Contracts.create_project assert_staged
answered = (_, refl)

handle_collection_create_visible_example :
    list_collection projects answered.0.rows "tenant-a"
    ≡ list_collection projects repository "tenant-a" ++ project tower_project ∷ []
handle_collection_create_visible_example =
    handle_collection_create_visible crypto ambient false projects request world answered.0 made
      answered.1

created_once :
    (r : Repository) × (create_email_delivery repository delivery
      ≡ ok (r, record { created = true; delivery = delivery }))
unfolding create_email_delivery insert_new
created_once = (_, refl)

create_email_delivery-once_example :
    (email_delivery_intent_matches delivery delivery ≡ true)
    × (create_email_delivery created_once.0 delivery
        ≡ ok (created_once.0, record { created = false; delivery = delivery }))
create_email_delivery-once_example =
    create_email_delivery-once repository created_once.0 delivery
      (record { created = true; delivery = delivery }) created_once.1

abbrev sent : EmailDelivery
sent = record delivery { status = "accepted"; provider_message_id = some "m1" }

abbrev mailing : Repository
mailing = record repository { email_deliveries = ("d1", sent) ∷ [] }

abbrev delivered : ProviderEvent
delivered = record {
  kind = "email.delivered";
  email_id = some "m1";
  created_at = at_time 9;
  bounce_message = none;
}

abbrev arrived : EmailDelivery
arrived = record sent {
  status = "delivered";
  provider_status_at = some 9;
  delivered_at = some 9;
  updated_at = 9;
}

abbrev no_evidence : EmailDelivery → Evidence
no_evidence d = without_event

applied :
    (r : Repository) × (apply_email_webhook (λ t. "digest") mailing "w1" delivered no_evidence
      ≡ (r, ok (record { duplicate = false; delivery = some arrived })))
unfolding apply_email_webhook apply_email_webhook_status create_email_suppression_from_webhook
    suppression_reason assert_email_delivery bounded_text email_address is_address_from trim
    to_lower webhook_status time_of with_status
applied = (_, refl)

apply_email_webhook-once_example :
    apply_email_webhook (λ t. "digest") applied.0 "w1" delivered no_evidence
    ≡ (applied.0, ok (record { duplicate = true; delivery = none }))
apply_email_webhook-once_example =
    apply_email_webhook-once (λ t. "digest") "w1" delivered applied.0 arrived mailing no_evidence
      delivered no_evidence applied.1
