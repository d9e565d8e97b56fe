-- ===== src/Api/Files.antt =====
-- The routes of apps/api/src/handlers.js that complete an upload and delete a file, over the repository
-- in memory and a storage that is an argument. What was written before an exception stays.
pub mod Evidence
pub mod Foreign
pub mod Completing
pub mod Deleting
use xygo_aec.Base.{
  ℕ, String, Bool, true, false, not, ◌&&◌, ◌||◌, [], ◌∷◌, Option, none, some, Failure, Result, ok,
  err, throw, ◌===◌, ◌==◌, ◌⧺◌, if◌then◌else◌, Value, undefined, str,
}
use xygo_aec.Audit.{
  Crypto, Ambient, AuditInput, AuditEvent, create_audit_event, OutboxEvent, create_outbox_event,
}
use xygo_aec.Emission.{transition_event, aggregate_event}
use xygo_aec.Outbox.Jobs.{Job}
use xygo_aec.Outbox.Store.{Store}
use xygo_aec.Outbox.Processing.{enqueue_outbox_event}
use xygo_aec.FileStorage.{StoredFile, assert_file_record}
use xygo_aec.Repositories.{Repository}
use xygo_aec.Repositories.Mail.{
  get_file_record_by_id, save_file_record, finalize_file_record, previous_hash,
}
use xygo_aec.Api.Gate.{Principal, Forbidden, authorize}

pub record StoredObject : Type 0 where
  pub tenant_id : String
  pub content_type : String
  pub size_bytes : ℕ
  pub checksum_sha256 : Option String

-- `headObject` and `deleteObject` of a storage adapter over the objects that it holds. A deletion that
-- throws may have changed them.
pub record Storage (S : Type 0) : Type 0 where
  pub head_object : S → StoredFile → Result (Option StoredObject)
  pub delete_object : S → StoredFile → S × Result (Unit {0})

pub record FileWorld (S : Type 0) : Type 0 where
  pub repository : Repository
  pub outbox : Store
  pub objects : S

pub record FileRequest : Type 0 where
  pub tenant_id : String
  pub file_id : String
  pub principal : Principal
  pub signing_key : Option String
  pub now : ℕ

pub data Answer : Type 0 where
  shown : StoredFile → Answer
  bad_request not_found forbidden : String → Answer
  unavailable : String → String → Answer
  internal_error : Answer

-- A step on the world that may throw.
abbrev pub M : Type 0 → Type 0 → Type 0
M S A = FileWorld S → FileWorld S × Result A

module _ {S : Type 0} where
  infixl 5 ◌>>=◌ ◌>>◌
  abbrev pub after_step :
      {A B : Type 0} → FileWorld S × Result A → (A → M S B) → FileWorld S × Result B
  after_step (w, err e) f = (w, err e)
  after_step (w, ok a) f = f a w

  abbrev pub ◌>>=◌ : {A B : Type 0} → M S A → (A → M S B) → M S B
  ◌>>=◌ m f w = after_step (m w) f

  abbrev pub ◌>>◌ : {A B : Type 0} → M S A → M S B → M S B
  m >> k = m >>= λ done. k

  abbrev pub give : {A : Type 0} → A → M S A
  give a w = (w, ok a)

  -- A computation that does not touch the world.
  abbrev pub from_result : {A : Type 0} → Result A → M S A
  from_result result w = (w, result)

  abbrev handled :
      {A : Type 0} → (Failure → M S A) → FileWorld S × Result A → FileWorld S × Result A
  handled handler (w, err e) = handler e w
  handled handler (w, ok a) = (w, ok a)

  -- `try { body } catch { handler }`
  abbrev pub try_catch : {A : Type 0} → M S A → (Failure → M S A) → M S A
  try_catch body handler w = handled handler (body w)

  abbrev put_repository :
      {A : Type 0} → FileWorld S → Result (Repository × A) → FileWorld S × Result A
  put_repository w (err e) = (w, err e)
  put_repository w (ok (r, a)) = (record w { repository = r }, ok a)

  -- An operation of the repository.
  abbrev pub on_repository : {A : Type 0} → (Repository → Result (Repository × A)) → M S A
  on_repository operation w = put_repository w (operation w.repository)

  abbrev put_outbox : FileWorld S → Result (Store × Job) → FileWorld S × Result Job
  put_outbox w (err e) = (w, err e)
  put_outbox w (ok (s, j)) = (record w { outbox = s }, ok j)

  abbrev put_objects : FileWorld S → S × Result (Unit {0}) → FileWorld S × Result (Unit {0})
  put_objects w (objects, result) = (record w { objects = objects }, result)

abbrev pub file_event : FileRequest → Repository → String → StoredFile → Value → Value → AuditInput
file_event q r action file before after =
    record (transition_event q.tenant_id q.principal.user_id action "file_record" file.id before
      after undefined) { previous_hash = previous_hash r q.tenant_id; signing_key = q.signing_key }

abbrev pub file_outbox_key : FileRequest → String → StoredFile → String
file_outbox_key q action file = q.tenant_id ⧺ ":" ⧺ action ⧺ ":" ⧺ file.id

-- `sha256:` and the checksum, or `ready`.
abbrev completed_ref : Option String → Value
completed_ref none = str "ready"
completed_ref (some checksum) = str (if checksum === "" then "ready" else "sha256:" ⧺ checksum)

-- A file of the tenant.
abbrev pub own_file : FileRequest → Option StoredFile → Option StoredFile
own_file q none = none
own_file q (some file) = if file.tenant_id === q.tenant_id then some file else none

module _ {S : Type 0} (storage : Storage S) (c : Crypto) (a : Ambient) (q : FileRequest) where
  -- `fileOutboxEvent` and its enqueueing.
  unfoldable pub enqueue_event : String → StoredFile → OutboxEvent → M S Job
  enqueue_event action file event w =
      put_outbox w
        (enqueue_outbox_event w.outbox event (some (file_outbox_key q action file)) q.now)

  unfoldable pub enqueue_file_outbox : String → StoredFile → M S Job
  unfolding enqueue_event
  enqueue_file_outbox action file = do
    event ←
        from_result (
          create_outbox_event a
            (aggregate_event action "file_record" file.id q.tenant_id undefined))
    enqueue_event action file event

  -- `json(200, { item: publicFileMetadata(file) })`: the item is the file without its storage key.
  abbrev pub show_file : StoredFile → M S Answer
  show_file file = from_result (assert_file_record file) >> give (shown file)

  build_event : String → StoredFile → Value → Value → M S AuditEvent
  build_event action file before after w =
      (w, create_audit_event c a (file_event q w.repository action file before after))

  -- The evidence of a change, the change and its announcement.
  unfoldable pub finalize_and_announce : String → StoredFile → Value → Value → M S Answer
  unfolding build_event enqueue_event
  finalize_and_announce action file before after = do
    audit_event ← build_event action file before after
    outbox_event ←
        from_result (
          create_outbox_event a
            (aggregate_event action "file_record" file.id q.tenant_id undefined))
    on_repository (λ r. finalize_file_record r file audit_event)
    enqueue_event action file outbox_event
    show_file file

  abbrev pub completed : StoredFile → StoredObject → StoredFile
  completed file object = record file {
    status = "ready";
    checksum_sha256 = object.checksum_sha256;
    updated_at = q.now;
  }

  complete_with : StoredFile → Option StoredObject → M S Answer
  unfolding finalize_and_announce
  complete_with file none = give (bad_request "Uploaded object was not found.")
  complete_with file (some object) =
      if not (object.tenant_id === file.tenant_id)
      then give (forbidden "Stored object tenant metadata does not match.")
      else if not (object.content_type === file.mime_type)
      then give (bad_request "Stored object MIME type does not match the upload intent.")
      else if not (object.size_bytes == file.size_bytes)
      then give (bad_request "Stored object size does not match the upload intent.")
      else finalize_and_announce "api.file.upload_completed" (completed file object)
          (str file.status) (completed_ref object.checksum_sha256)

  unfoldable pub complete_file_upload : StoredFile → M S Answer
  unfolding complete_with
  complete_file_upload file w =
      after_step (w, storage.head_object w.objects file) (complete_with file)

  -- The event of a change that was made before is put into the outbox again.
  repeat_event : String → String → StoredFile → M S Answer
  unfolding enqueue_file_outbox
  repeat_event action message file = do
    announced ← try_catch (enqueue_file_outbox action file >> give true) (λ e. give false)
    if announced then show_file file else give (unavailable "outbox_unavailable" message)

  complete_found : Option StoredFile → M S Answer
  unfolding complete_file_upload repeat_event
  complete_found none = give (not_found "File not found.")
  complete_found (some file) =
      if file.status === "ready"
      then repeat_event "api.file.upload_completed"
          "File is ready but its durable outbox event is still pending; retry completion." file
      else if not (file.status === "pending_upload")
      then give (bad_request "File is not awaiting upload completion.")
      else try_catch (complete_file_upload file) (λ e. give (
          unavailable "file_storage_unavailable"
            "File storage could not verify the uploaded object."))

  after_gate : Option Forbidden → M S Answer → M S Answer
  after_gate (some denied) rest = give (forbidden denied.message)
  after_gate none rest = rest

  -- An exception that nothing caught is answered with status 500.
  abbrev to_answer : FileWorld S × Result Answer → FileWorld S × Answer
  to_answer (v, err e) = (v, internal_error)
  to_answer (v, ok x) = (v, x)

  abbrev answered : M S Answer → FileWorld S → FileWorld S × Answer
  answered m w = to_answer (m w)

  abbrev found_file : FileWorld S → Option StoredFile
  found_file w = own_file q (get_file_record_by_id w.repository q.file_id)

  unfoldable pub complete_route : FileWorld S → FileWorld S × Answer
  unfolding complete_found after_gate get_file_record_by_id
  complete_route w =
      answered
        (after_gate (authorize (some q.principal) q.tenant_id "file_record" "update")
          (complete_found (found_file w)))
        w

  abbrev pub deleting : StoredFile → StoredFile
  deleting file = record file { status = "deleting"; updated_at = q.now }

  abbrev pub deleted : StoredFile → StoredFile
  deleted file = record file { status = "deleted"; deleted_at = some q.now; updated_at = q.now }

  delete_object : StoredFile → M S (Unit {0})
  delete_object file w = put_objects w (storage.delete_object w.objects (deleting file))

  -- The record is marked and its object deleted; `false` if that failed and the mark was taken back.
  unfoldable pub remove_object : StoredFile → M S Bool
  unfolding delete_object
  remove_object file =
      try_catch
        ((if file.status === "deleting"
            then give tt
            else on_repository (λ r. save_file_record r (deleting file)) >> give tt)
          >> delete_object file
          >> give true)
        (λ e.
          (if file.status === "deleting"
            then give tt
            else on_repository (λ r. save_file_record r file) >> give tt)
          >> give false)

  delete_found : Option StoredFile → M S Answer
  unfolding repeat_event remove_object finalize_and_announce
  delete_found none = give (not_found "File not found.")
  delete_found (some file) =
      if file.status === "deleted"
      then repeat_event "api.file.deleted"
          "File is deleted but its durable outbox event is still pending; retry deletion." file
      else (remove_object file >>= λ removed.
          if removed
          then try_catch
              (finalize_and_announce "api.file.deleted" (deleted file) (str file.status)
                (str "deleted"))
              (λ e. give (
                unavailable "file_delete_finalization_pending"
                  "Object deletion succeeded; retry DELETE to finalize metadata and audit evidence."))
          else give
              (unavailable "file_storage_unavailable" "File storage could not delete the object."))

  unfoldable pub delete_route : FileWorld S → FileWorld S × Answer
  unfolding delete_found after_gate get_file_record_by_id
  delete_route w =
      answered
        (after_gate (authorize (some q.principal) q.tenant_id "file_record" "delete")
          (delete_found (found_file w)))
        w
