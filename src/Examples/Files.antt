-- ===== src/Examples/Files.antt =====
-- Uploads of tenant-a, one pending and one that is being deleted, and a file of tenant-b.
use xygo_aec.Base.{
  false, true, Option, ◌===◌, ◌≢◌, ◌∙◌, ap, String, List, [], ◌∷◌, none, some, Failure, ok, throw,
  trim, is_blank, ◌≡◌, refl, undefined, null, str,
}
use xygo_aec.Access.Policy.{can_perform, resolve_role}
use xygo_aec.Access.Policy.Matrix.{allow_matrix}
use xygo_aec.Audit.{
  AuditEvent, OutboxEvent, create_audit_event, create_outbox_event, seal, base_event, usable_key,
}
use xygo_aec.Emission.{transition_event, user_event, aggregate_event, Announces}
use xygo_aec.Outbox.Jobs.{Job, required_text, new_job}
use xygo_aec.Outbox.Store.{Store, empty, enqueue, enqueue_found, lookup_key, find_job}
use xygo_aec.Outbox.Processing.{enqueue_outbox_event}
use xygo_aec.FileStorage.{StoredFile, assert_file_record}
use xygo_aec.Repositories.Mail.{get_file_record_by_id, finalize_file_record}
use xygo_aec.Api.Gate.{Principal, authorize}
use xygo_aec.Api.Files.{
  StoredObject, Storage, FileWorld, FileRequest, Answer, shown, unavailable, complete_route,
  delete_route, deleted, completed, file_event, file_outbox_key, complete_file_upload,
  finalize_and_announce, enqueue_event,
}
use xygo_aec.Api.Files.Evidence.{Evidence}
use xygo_aec.Api.Files.Foreign.{Refuses, routes-foreign}
use xygo_aec.Api.Files.Completing.{Completed, complete_route_sound}
use xygo_aec.Api.Files.Deleting.{delete_route-rollback, delete_route-retry}
use xygo_aec.Examples.Data.{crypto, ambient}
use xygo_aec.Examples.Repositories.{repository}

abbrev pending : StoredFile
pending = record {
  id = "f1";
  tenant_id = "tenant-a";
  project_id = "p1";
  field_report_id = null;
  file_class = str "document";
  original_filename = "plan.pdf";
  mime_type = "application/pdf";
  size_bytes = 2048;
  storage_key = "tenants/tenant-a-0a1b/files/f1";
  status = "pending_upload";
  checksum_sha256 = none;
  client_visible = false;
  created_by = "ana";
  created_at = 1;
  updated_at = 1;
  retention_until = 100;
  deleted_at = none;
}

abbrev left : StoredFile
left = record pending { id = "f2"; status = "deleting" }

abbrev foreign : StoredFile
foreign = record pending { id = "f9"; tenant_id = "tenant-b" }

abbrev principal : Principal
principal = record {
  user_id = "ana";
  tenant_id = "tenant-a";
  organization_role = "company_admin";
  project_role = none;
}

abbrev request : String → FileRequest
request id = record {
  tenant_id = "tenant-a";
  file_id = id;
  principal = principal;
  signing_key = none;
  now = 10;
}

abbrev fitting : StoredObject
fitting = record {
  tenant_id = "tenant-a";
  content_type = "application/pdf";
  size_bytes = 2048;
  checksum_sha256 = some "abcd";
}

-- A storage that holds one object under each key, and one that throws after it deleted a part.
abbrev storage : Storage (List String)
storage = record {
  head_object = λ keys file. ok (some fitting);
  delete_object = λ keys file. ([], ok tt);
}

abbrev broken : Storage (List String)
broken = record storage { delete_object = λ keys file. ("f1.json" ∷ [], throw "disk") }

abbrev world : FileWorld (List String)
world = record {
  repository = record repository {
    file_records = ("f1", pending) ∷ ("f2", left) ∷ ("f9", foreign) ∷ [];
  };
  outbox = empty;
  objects = [];
}

found : get_file_record_by_id world.repository "f1" ≡ some pending
unfolding get_file_record_by_id
found = refl

others :
    (f : StoredFile)
    → get_file_record_by_id world.repository "f9" ≡ some f
    → f.tenant_id ≢ "tenant-a"
unfolding get_file_record_by_id
others f e other =
    let its : "tenant-b" ≡ f.tenant_id = ap (λ o. owner o) e in
    let wrong : false ≡ true = ap (λ t. t === "tenant-a") (its ∙ other) in cc wrong
  where
    owner : Option StoredFile → String
    owner none = ""
    owner (some x) = x.tenant_id

routes-foreign_example :
    Refuses world (complete_route storage crypto ambient (request "f9") world)
    × Refuses world (delete_route storage crypto ambient (request "f9") world)
unfolding get_file_record_by_id
routes-foreign_example = routes-foreign storage crypto ambient (request "f9") world others

allowed :
    (authorize (some principal) "tenant-a" "file_record" "update" ≡ none)
    × (authorize (some principal) "tenant-a" "file_record" "delete" ≡ none)
unfolding authorize can_perform resolve_role allow_matrix
allowed = (refl, refl)

finished :
    (w : FileWorld (List String)) × (complete_route storage crypto ambient (request "f1") world
      ≡ (w, shown (completed storage crypto ambient (request "f1") pending fitting)))
unfolding complete_route complete_file_upload finalize_and_announce enqueue_event
    finalize_file_record assert_file_record authorize can_perform resolve_role allow_matrix
    create_audit_event create_outbox_event seal base_event usable_key transition_event user_event
    aggregate_event required_text new_job enqueue enqueue_found lookup_key find_job
    enqueue_outbox_event trim is_blank get_file_record_by_id
finished = (_, refl)

complete_route_sound_example :
    (pending.tenant_id ≡ "tenant-a")
    × (authorize (some principal) "tenant-a" "file_record" "update" ≡ none)
    × Completed storage crypto ambient
        (request "f1")
        pending
        (completed storage crypto ambient (request "f1") pending fitting)
        world
        finished.0
unfolding get_file_record_by_id
complete_route_sound_example =
    complete_route_sound storage crypto ambient (request "f1") pending
      (completed storage crypto ambient (request "f1") pending fitting) world finished.0 refl refl
      finished.1

abbrev failed : FileWorld (List String) × Answer
failed = delete_route broken crypto ambient (request "f1") world

abbrev disk : Failure
disk = record { message = "disk"; code = none; retryable = none }

delete_route-rollback_example :
    (failed.1 ≡ unavailable "file_storage_unavailable" "File storage could not delete the object.")
    × ((id : String)
        → get_file_record_by_id failed.0.repository id ≡ get_file_record_by_id world.repository id)
    × (failed.0.repository.audit_events ≡ [])
    × (failed.0.outbox ≡ empty)
    × (failed.0.objects ≡ "f1.json" ∷ [])
delete_route-rollback_example =
    delete_route-rollback broken crypto ambient (request "f1") world pending allowed.1 found refl
      refl ("f1.json" ∷ []) disk refl refl refl

abbrev repeated : FileWorld (List String) × Answer
repeated = delete_route storage crypto ambient (request "f2") world

-- What the repeated deletion goes through.
written :
    (e : AuditEvent) × (create_audit_event crypto ambient (
        file_event
          (request "f2")
          world.repository
          "api.file.deleted"
          (deleted storage crypto ambient (request "f2") left)
          (str "deleting")
          (str "deleted"))
      ≡ ok e)
unfolding create_audit_event seal base_event usable_key transition_event user_event
written = (_, refl)

announced :
    (o : OutboxEvent) × (create_outbox_event ambient
        (aggregate_event "api.file.deleted" "file_record" "f2" "tenant-a" undefined)
      ≡ ok o)
unfolding create_outbox_event aggregate_event trim
announced = (_, refl)

queued :
    (s : Store) × (j : Job) × (enqueue_outbox_event empty announced.0
        (some (file_outbox_key (request "f2") "api.file.deleted" left))
        10
      ≡ ok (s, j))
unfolding announced create_outbox_event aggregate_event required_text new_job enqueue enqueue_found
    lookup_key find_job enqueue_outbox_event trim
queued = (_, _, refl)

valid : assert_file_record (deleted storage crypto ambient (request "f2") left) ≡ ok tt
unfolding assert_file_record is_blank
valid = refl

left_over : get_file_record_by_id world.repository "f2" ≡ some left
unfolding get_file_record_by_id
left_over = refl

delete_route-retry_example :
    (repeated.1 ≡ shown (deleted storage crypto ambient (request "f2") left))
    × (get_file_record_by_id repeated.0.repository "f2"
        ≡ some (deleted storage crypto ambient (request "f2") left))
    × (repeated.0.repository.audit_events ≡ written.0 ∷ [])
    × Evidence
        (request "f2")
        world.repository
        "api.file.deleted"
        "f2"
        (str "deleting")
        (str "deleted")
        written.0
    × Announces announced.0 "api.file.deleted" "f2" "tenant-a"
    × (repeated.0.outbox ≡ queued.0)
delete_route-retry_example =
    delete_route-retry storage crypto ambient (request "f2") world left allowed.1 left_over refl
      refl [] written.0 announced.0 queued.0 queued.1 refl refl written.1 announced.1 queued.2 valid
