-- ===== src/Api/Files/Deleting.antt =====
-- The deletion of a file in apps/api/src/handlers.js where the storage fails, and where it is repeated.
use xygo_aec.Base.{
  String, Bool, true, false, [], ◌∷◌, ◌++◌, none, some, Failure, ok, err, ◌===◌, eq_of_===,
  ===_refl, if◌then◌else◌, str, undefined, ◌≡◌, refl, sym, ◌∙◌, subst,
}
use xygo_aec.Audit.{
  Crypto, Ambient, AuditEvent, create_audit_event, OutboxEvent, create_outbox_event,
}
use xygo_aec.Emission.{aggregate_event, Announces, aggregate_event-announced}
use xygo_aec.Outbox.Jobs.{Job}
use xygo_aec.Outbox.Store.{Store}
use xygo_aec.Outbox.Processing.{enqueue_outbox_event}
use xygo_aec.FileStorage.{StoredFile, assert_file_record}
use xygo_aec.Repositories.Maps.{get, is_some, set, get-set, has-set}
use xygo_aec.Repositories.Mail.{get_file_record_by_id, save_file_record, finalize_file_record}
use xygo_aec.Api.Gate.{authorize}
use xygo_aec.Api.Files.{
  Storage, FileWorld, FileRequest, shown, unavailable, answered, after_gate, own_file, file_event,
  file_outbox_key, delete_found, delete_route, deleting, remove_object, delete_object,
  finalize_and_announce, build_event, enqueue_event,
}
use xygo_aec.Api.Files.Evidence.{Evidence, file_event-Evidence}

module _ {S : Type 0} (storage : Storage S) (c : Crypto) (a : Ambient) (q : FileRequest)
    (w : FileWorld S) (file : StoredFile)
    (allowed : authorize (some q.principal) q.tenant_id "file_record" "delete" ≡ none)
    (found : get_file_record_by_id w.repository file.id ≡ some file) (named : file.id ≡ q.file_id)
    (own : file.tenant_id ≡ q.tenant_id) where
  own_found : own_file q (get_file_record_by_id w.repository q.file_id) ≡ some file
  own_found =
      subst (λ i. own_file q (get_file_record_by_id w.repository i) ≡ some file) named
        (rw found (
          subst (λ t. (if file.tenant_id === t then some file else none) ≡ some file) own
            (rw (===_refl file.tenant_id) refl)))

  routed :
      delete_route storage c a q w
      ≡ answered storage c a q (delete_found storage c a q (some file)) w
  unfolding delete_route after_gate get_file_record_by_id
  routed = rw (allowed, own_found) refl

  -- The stores of files, after the mark was set and taken back.
  abbrev restored : FileWorld S
  restored = record w {
    repository = record (w.repository) {
      file_records =
          set file.id file (set file.id (deleting storage c a q file) w.repository.file_records);
    };
  }

  there : is_some (get file.id w.repository.file_records) ≡ true
  unfolding get_file_record_by_id
  there = rw found refl

  remove_object-failed :
      (objects : S) (e : Failure)
      → (file.status === "deleting") ≡ false
      → storage.delete_object w.objects (deleting storage c a q file) ≡ (objects, err e)
      → remove_object storage c a q file w ≡ (record restored { objects = objects }, ok false)
  unfolding remove_object delete_object save_file_record
  remove_object-failed objects e new failing =
      rw (new, there, failing)
        (rw (has-set file.id (deleting storage c a q file) w.repository.file_records) refl)

  -- Where the storage cannot delete the object of a file of the tenant that is neither deleted nor being
  -- deleted, the answer to an allowed request is 503 and the mark is taken back: each file that is looked up by
  -- its id is as it was, and so are the audit events and the outbox. The stored objects are what the storage
  -- left of them.
  pub delete_route-rollback :
      (objects : S) (e : Failure)
      → (file.status === "deleted") ≡ false
      → (file.status === "deleting") ≡ false
      → storage.delete_object w.objects (record file { status = "deleting"; updated_at = q.now })
        ≡ (objects, err e)
      → let result = delete_route storage c a q w in
        (result.1
          ≡ unavailable "file_storage_unavailable" "File storage could not delete the object.")
        × ((id : String)
            → get_file_record_by_id result.0.repository id ≡ get_file_record_by_id w.repository id)
        × (result.0.repository.audit_events ≡ w.repository.audit_events)
        × (result.0.outbox ≡ w.outbox)
        × (result.0.objects ≡ objects)
  unfolding delete_found get_file_record_by_id
  delete_route-rollback objects e present new failing =
      rw (routed, present, remove_object-failed objects e new failing)
        (refl, same, refl, refl, refl)
    where
      same :
          (id : String) → get id restored.repository.file_records ≡ get id w.repository.file_records
      same id = get-set file.id file _ id ∙ by_test (file.id === id) refl
        where
          by_test :
              (b : Bool)
              → (file.id === id) ≡ b
              → (if b
                  then some file
                  else get id (set file.id (deleting storage c a q file) w.repository.file_records))
                ≡ get id w.repository.file_records
          by_test true e' =
              subst (λ i. some file ≡ get i w.repository.file_records) (eq_of_=== file.id id e')
                (sym found)
          by_test false e' =
              get-set file.id (deleting storage c a q file) w.repository.file_records id
              ∙ rw e' refl

  -- A deletion that nothing stops, be it the first or a repeated one.
  deletion_lem :
      (objects : S)
      → storage.delete_object w.objects (deleting storage c a q file) ≡ (objects, ok tt)
      → (file.status === "deleting") ≡ true
      → remove_object storage c a q file w ≡ (record w { objects = objects }, ok true)
  unfolding remove_object delete_object
  deletion_lem objects worked again = rw (again, worked) refl

  abbrev pub marked_deleted : StoredFile
  marked_deleted = record file { status = "deleted"; deleted_at = some q.now; updated_at = q.now }

  -- A DELETE that is repeated for a file that was left in the status `deleting` finishes what the first one
  -- left: if the request is allowed, the storage deletes the object (which it may have done before), and the
  -- evidence, the announcement and the outbox do not throw, the file is shown as deleted, at the time of the
  -- request, and is stored so. One event is appended: by the principal, for the file and its tenant, from
  -- `deleting` to `deleted`, and linked to the last event of the tenant. The outbox is the one with the
  -- announcement of the file.
  pub delete_route-retry :
      (objects : S) (event : AuditEvent) (outbox_event : OutboxEvent) (s : Store) (job : Job)
      → file.status ≡ "deleting"
      → storage.delete_object w.objects (record file { status = "deleting"; updated_at = q.now })
        ≡ (objects, ok tt)
      → create_audit_event c a (
          file_event q w.repository "api.file.deleted" marked_deleted
            (str file.status)
            (str "deleted"))
        ≡ ok event
      → create_outbox_event a
          (aggregate_event "api.file.deleted" "file_record" file.id q.tenant_id undefined)
        ≡ ok outbox_event
      → enqueue_outbox_event w.outbox outbox_event
          (some (file_outbox_key q "api.file.deleted" file))
          q.now
        ≡ ok (s, job)
      → assert_file_record marked_deleted ≡ ok tt
      → let result = delete_route storage c a q w in
        (result.1 ≡ shown marked_deleted)
        × (get_file_record_by_id result.0.repository file.id ≡ some marked_deleted)
        × (result.0.repository.audit_events ≡ w.repository.audit_events ++ event ∷ [])
        × Evidence q w.repository "api.file.deleted" file.id (str "deleting") (str "deleted") event
        × Announces outbox_event "api.file.deleted" file.id q.tenant_id
        × (result.0.outbox ≡ s)
  unfolding delete_found get_file_record_by_id finalize_and_announce build_event enqueue_event
      finalize_file_record
  delete_route-retry objects event outbox_event s job again worked made announced queued valid =
      let present = subst (λ t. (t === "deleted") ≡ false) (sym again) refl in
      let same = subst (λ t. (t === "deleting") ≡ true) (sym again) refl in
      let evidence =
        subst
          (λ t. Evidence q w.repository "api.file.deleted" file.id (str t) (str "deleted") event)
          again
          (file_event-Evidence c a q w.repository "api.file.deleted" marked_deleted
            (str file.status) (str "deleted") event made) in
      let said = aggregate_event-announced a _ _ _ _ _ outbox_event announced in
      rw (routed, present, deletion_lem objects worked same)
        (rw (made, announced, there, queued, valid)
          (
            refl,
            has-set file.id marked_deleted w.repository.file_records,
            refl,
            evidence,
            said,
            refl,
          ))
