-- ===== src/Examples/Collections.antt =====
-- A write to a collection of projects.
use xygo_aec.Base.{
  false, String, List, [], ◌∷◌, none, some, trim, ok, ◌≡◌, refl, Value, str, obj, field, end,
}
use xygo_aec.Audit.{create_audit_event, create_outbox_event, seal, base_event, usable_key}
use xygo_aec.Emission.{transition_event, user_event, aggregate_event}
use xygo_aec.Outbox.Jobs.{required_text, new_job}
use xygo_aec.Outbox.Store.{empty, enqueue, enqueue_found, lookup_key, find_job}
use xygo_aec.Outbox.Processing.{enqueue_outbox_event}
use xygo_aec.Api.Collections.{
  Created, Resource, World, Request, created, persist, handle_collection_create,
}
use xygo_aec.Api.Collections.Writing.{AllWritten, handle_collection_create-created}
use xygo_aec.Examples.Data.{crypto, ambient}

abbrev Names : Type 0
Names = List String

abbrev projects : Resource Names Value
projects = record {
  list = λ rows tenant_id. [];
  validate = λ parsed. none;
  guard = λ parsed tenant_id rows. none;
  build = λ parsed tenant_id. parsed;
  create = λ rows input. ok ("p1" ∷ rows, record { id = "p1"; item = input });
  action = "api.project.created";
  resource_type = "project";
  after_state_ref = λ c. str "draft";
}

abbrev request : Request
request = record {
  parsed = obj (field "id" (str "p1") end);
  tenant_id = "tenant-a";
  actor_id = some "ana";
  signing_key = none;
  now = 10;
}

abbrev world : World Names
world = record { rows = []; audit_events = []; outbox = empty }

abbrev project : Created Value
project = record { id = "p1"; item = obj (field "id" (str "p1") end) }

written :
    (w : World Names) × (handle_collection_create crypto ambient false projects request world
      ≡ (w, created project))
unfolding handle_collection_create persist create_audit_event create_outbox_event seal base_event
    usable_key transition_event user_event aggregate_event required_text new_job enqueue
    enqueue_found lookup_key find_job enqueue_outbox_event trim
written = (_, refl)

handle_collection_create-created_example :
    AllWritten crypto ambient projects request world written.0 project
handle_collection_create-created_example =
    handle_collection_create-created crypto ambient false projects request world written.0 project
      written.1
