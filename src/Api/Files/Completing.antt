-- ===== src/Api/Files/Completing.antt =====
-- What the completion of an upload stands for, in apps/api/src/handlers.js.
use xygo_aec.Base.{
  String, Bool, true, false, not, [], ◌∷◌, ◌++◌, Option, none, some, Failure, Result, ok, err,
  throw_if-bind, ◌===◌, eq_of_===, ◌==◌, ◌⧺◌, if◌then◌else◌, Value, str, ◌≡◌, ◌≢◌, refl, sym, ap,
  ◌∙◌, subst, arith, ok-injective, Bool-cases, inl, inr,
}
use xygo_aec.Audit.{Crypto, Ambient, AuditEvent, OutboxEvent}
use xygo_aec.Emission.{Announces, aggregate_event-announced}
use xygo_aec.Outbox.Jobs.{Job}
use xygo_aec.Outbox.Store.{Store}
use xygo_aec.Outbox.Processing.{enqueue_outbox_event}
use xygo_aec.FileStorage.{StoredFile, assert_file_record}
use xygo_aec.Repositories.{Repository}
use xygo_aec.Repositories.Maps.{has, set}
use xygo_aec.Repositories.Mail.{get_file_record_by_id, finalize_file_record}
use xygo_aec.Api.Gate.{Forbidden, authorize}
use xygo_aec.Api.Files.{
  StoredObject, Storage, FileWorld, FileRequest, Answer, shown, bad_request, not_found, forbidden,
  unavailable, internal_error, M, after_step, put_repository, put_outbox, handled, give, to_answer,
  after_gate, file_outbox_key, own_file, build_event, enqueue_event, finalize_and_announce,
  complete_with, complete_file_upload, complete_found, complete_route,
}
use xygo_aec.Api.Files.Evidence.{Evidence, file_event-Evidence}

-- What a block that did not throw went through, step by step.
module _ {S B : Type 0} (w w' : FileWorld S) (b : B) where
  failed :
      {e : Failure} {v : FileWorld S} → ◌≡◌ {A = FileWorld S × Result B} (v, err e) (w', ok b) → ⊥
  failed {e} {v} h = err≢ok (ap (λ p. p.1) h)
    where
      err≢ok : err e ≡ ok b → ⊥
      err≢ok e' = cc

  pub pure_step-ok :
      {A : Type 0} (result : Result A) (f : A → M S B)
      → after_step (w, result) f ≡ (w', ok b)
      → (x : A) × (result ≡ ok x) × (f x w ≡ (w', ok b))
  pure_step-ok (err e) f h = absurd (failed h)
  pure_step-ok (ok x) f h = (x, refl, h)

  pub repository_step-ok :
      {A : Type 0} (result : Result (Repository × A)) (f : A → M S B)
      → after_step (put_repository w result) f ≡ (w', ok b)
      → (r : Repository) × (x : A) × (result ≡ ok (r, x))
        × (f x (record w { repository = r }) ≡ (w', ok b))
  repository_step-ok (err e) f h = absurd (failed h)
  repository_step-ok (ok (r, x)) f h = (r, x, refl, h)

  pub outbox_step-ok :
      (result : Result (Store × Job)) (f : Job → M S B)
      → after_step (put_outbox w result) f ≡ (w', ok b)
      → (s : Store) × (j : Job) × (result ≡ ok (s, j))
        × (f j (record w { outbox = s }) ≡ (w', ok b))
  outbox_step-ok (err e) f h = absurd (failed h)
  outbox_step-ok (ok (s, j)) f h = (s, j, refl, h)

module _ {S : Type 0} (storage : Storage S) (c : Crypto) (a : Ambient) (q : FileRequest) where
  -- The evidence of a change, the change and its announcement, all of them.
  pub record Finalized (action : String) (file : StoredFile) (before after : Value)
      (w w' : FileWorld S) : Type 0 where
    pub event : AuditEvent
    pub evidence : Evidence q w.repository action file.id before after event
    pub outbox_event : OutboxEvent
    pub announces : Announces outbox_event action file.id q.tenant_id
    pub there : has file.id w.repository.file_records ≡ true
    pub repository : w'.repository ≡ record (w.repository) {
      file_records = set file.id file w.repository.file_records;
      audit_events = w.repository.audit_events ++ event ∷ [];
    }
    pub job : Job
    pub enqueued :
        enqueue_outbox_event w.outbox outbox_event (some (file_outbox_key q action file)) q.now
        ≡ ok (w'.outbox, job)
    pub objects : w'.objects ≡ w.objects

  finalize_file_record-ok :
      (r r' : Repository) (file f : StoredFile) (event : AuditEvent)
      → finalize_file_record r file event ≡ ok (r', f)
      → (has file.id r.file_records ≡ true)
        × (r' ≡ record r {
          file_records = set file.id file r.file_records;
          audit_events = r.audit_events ++ event ∷ [];
        })
  unfolding finalize_file_record
  finalize_file_record-ok r r' file f event h =
      let (there, e) = throw_if-bind (not (has file.id r.file_records)) _ _ h in
      (ground (arith, there), sym (ap (λ p. p.0) (ok-injective e)))

  pub finalize_and_announce-ok :
      (action : String) (file : StoredFile) (before after : Value) (w w' : FileWorld S)
      (answer : Answer)
      → finalize_and_announce storage c a q action file before after w ≡ (w', ok answer)
      → Finalized action file before after w w' × (answer ≡ shown file)
  unfolding finalize_and_announce build_event enqueue_event
  finalize_and_announce-ok action file before after w w' answer h =
      let (event, made, h1) = pure_step-ok w w' answer _ _ h in
      let (outbox_event, announced, h2) = pure_step-ok w w' answer _ _ h1 in
      let (r, f, written, h3) = repository_step-ok w w' answer _ _ h2 in
      let (s, job, enqueued, h4) = outbox_step-ok (record w { repository = r }) w' answer _ _ h3 in
      let (u, valid, h5) =
        pure_step-ok (record w { repository = r; outbox = s }) w' answer (assert_file_record file)
          (λ done. give (shown file)) h4 in
      let (there, same) = finalize_file_record-ok w.repository r file f event written in
      let world = ap (λ p. p.0) h5 in
      (
        record {
          event = event;
          evidence = file_event-Evidence c a q w.repository action file before after event made;
          outbox_event = outbox_event;
          announces = aggregate_event-announced a _ _ _ _ _ outbox_event announced;
          there = there;
          repository = sym (ap (λ v. v.repository) world) ∙ same;
          job = job;
          enqueued = enqueued ∙ ap (λ v. ok (v.outbox, job)) world;
          objects = sym (ap (λ v. v.objects) world);
        },
        sym (ok-injective (ap (λ p. p.1) h5)),
      )

  -- The stored object is what was announced of the file.
  pub record Fits (file : StoredFile) (object : StoredObject) : Type 0 where
    pub tenant : object.tenant_id ≡ file.tenant_id
    pub content_type : object.content_type ≡ file.mime_type
    pub size : object.size_bytes ≡ file.size_bytes

  -- The file, ready since the request, with the checksum of the object.
  abbrev pub ready_file : StoredFile → StoredObject → StoredFile
  ready_file file object = record file {
    status = "ready";
    checksum_sha256 = object.checksum_sha256;
    updated_at = q.now;
  }

  -- The state that the evidence names: the checksum, where there is one, or `ready`.
  abbrev pub ready_ref : Option String → Value
  ready_ref none = str "ready"
  ready_ref (some checksum) = str (if checksum === "" then "ready" else "sha256:" ⧺ checksum)

  abbrev Done : StoredFile → FileWorld S → FileWorld S → Answer → StoredObject → Type 0
  Done file w w' answer object =
      Fits file object
      × Finalized "api.file.upload_completed" (ready_file file object) (str file.status)
          (ready_ref object.checksum_sha256) w w'
      × (answer ≡ shown (ready_file file object))

  -- A comparison that a shown file went past.
  compared-ok :
      (same : Bool) (x : Answer) (k : M S Answer) (w w' : FileWorld S) (f : StoredFile)
      → x ≢ shown f
      → (if not same then give x else k) w ≡ (w', ok (shown f))
      → (same ≡ true) × (k w ≡ (w', ok (shown f)))
  compared-ok true x k w w' f other h = (refl, h)
  compared-ok false x k w w' f other h =
      absurd (other (ok-injective {a = x} {b = shown f} (ap (λ p. p.1) h)))

  complete_with-ok :
      (file f : StoredFile) (object : StoredObject) (w w' : FileWorld S)
      → complete_with storage c a q file (some object) w ≡ (w', ok (shown f))
      → Done file w w' (shown f) object
  unfolding complete_with
  complete_with-ok file f object w w' h =
      let (tenant, h1) = compared-ok (object.tenant_id === file.tenant_id) _ _ w w' f (λ e. cc) h in
      let (mime, h2) =
        compared-ok (object.content_type === file.mime_type) _ _ w w' f (λ e. cc) h1 in
      let (size, h3) = compared-ok (object.size_bytes == file.size_bytes) _ _ w w' f (λ e. cc) h2 in
      let (all, same) = finalize_and_announce-ok _ _ _ _ w w' (shown f) h3 in
      (
        record {
          tenant = eq_of_=== object.tenant_id file.tenant_id tenant;
          content_type = eq_of_=== object.content_type file.mime_type mime;
          size = ground (arith, size);
        },
        all,
        same,
      )

  complete_with-none :
      (file f : StoredFile) (w w' : FileWorld S)
      → complete_with storage c a q file none w ≡ (w', ok (shown f))
      → ⊥
  unfolding complete_with
  complete_with-none file f w w' h =
      let e : bad_request "Uploaded object was not found." ≡ shown f =
        ok-injective (ap (λ p. p.1) h) in
      cc

  shown-injective : (x y : StoredFile) → shown x ≡ shown y → x ≡ y
  shown-injective x y h = cc

  -- What the head of the object gave, and what was done with it.
  pub record Completed (file f : StoredFile) (w w' : FileWorld S) : Type 0 where
    pub object : StoredObject
    pub headed : storage.head_object w.objects file ≡ ok (some object)
    pub fits : Fits file object
    pub finalized :
        Finalized "api.file.upload_completed"
          (ready_file file object)
          (str file.status)
          (ready_ref object.checksum_sha256)
          w
          w'
    pub shows : f ≡ ready_file file object

  complete_file_upload-ok :
      (file f : StoredFile) (w w' : FileWorld S)
      → complete_file_upload storage c a q file w ≡ (w', ok (shown f))
      → Completed file f w w'
  unfolding complete_file_upload
  complete_file_upload-ok file f w w' h =
      let (found, headed, h1) =
        pure_step-ok w w' (shown f) (storage.head_object w.objects file)
          (complete_with storage c a q file) h in
      with_object found headed h1
    where
      with_object :
          (found : Option StoredObject)
          → storage.head_object w.objects file ≡ ok found
          → complete_with storage c a q file found w ≡ (w', ok (shown f))
          → Completed file f w w'
      with_object none headed h1 = absurd (complete_with-none file f w w' h1)
      with_object (some object) headed h1 =
          let (fits, finalized, shows) = complete_with-ok file f object w w' h1 in
          record {
            object = object;
            headed = headed;
            fits = fits;
            finalized = finalized;
            shows = shown-injective f (ready_file file object) shows;
          }

  caught-ok :
      (message : String) (p : FileWorld S × Result Answer) (w' : FileWorld S) (f : StoredFile)
      → handled (λ e. give (unavailable "file_storage_unavailable" message)) p ≡ (w', ok (shown f))
      → p ≡ (w', ok (shown f))
  caught-ok message (v, ok x) w' f h = h
  caught-ok message (v, err e) w' f h = absurd (not_shown (ok-injective (ap (λ p. p.1) h)))
    where
      not_shown : unavailable "file_storage_unavailable" message ≡ shown f → ⊥
      not_shown e' = cc

  answered-ok :
      (p : FileWorld S × Result Answer) (w' : FileWorld S) (f : StoredFile)
      → to_answer storage c a q p ≡ (w', shown f)
      → p ≡ (w', ok (shown f))
  answered-ok (v, err e) w' f h = absurd (not_shown (ap (λ p. p.1) h))
    where
      not_shown : internal_error ≡ shown f → ⊥
      not_shown e' = cc
  answered-ok (v, ok x) w' f h = cc (ap (λ p. p.0) h, ap (λ p. p.1) h)

  gated-ok :
      (d : Option Forbidden) (k : M S Answer) (w w' : FileWorld S) (f : StoredFile)
      → after_gate storage c a q d k w ≡ (w', ok (shown f))
      → (d ≡ none) × (k w ≡ (w', ok (shown f)))
  unfolding after_gate
  gated-ok none k w w' f h = (refl, h)
  gated-ok (some denied) k w w' f h =
      let e : forbidden denied.message ≡ shown f = ok-injective (ap (λ p. p.1) h) in cc

  complete_found-ok :
      (file f : StoredFile) (w w' : FileWorld S)
      → (file.status === "ready") ≡ false
      → complete_found storage c a q (some file) w ≡ (w', ok (shown f))
      → Completed file f w w'
  unfolding complete_found
  complete_found-ok file f w w' new h =
      let h1 = rw new at h in
      let (waiting, h2) = compared-ok (file.status === "pending_upload") _ _ w w' f (λ e. cc) h1 in
      complete_file_upload-ok file f w w' (caught-ok _ _ w' f h2)

  own_file-found :
      (f : StoredFile) (found : Option StoredFile) (w w' : FileWorld S)
      → complete_found storage c a q (own_file q found) w ≡ (w', ok (shown f))
      → (file : StoredFile) × (found ≡ some file)
        × (file.tenant_id ≡ q.tenant_id)
        × (complete_found storage c a q (some file) w ≡ (w', ok (shown f)))
  unfolding complete_found
  own_file-found f none w w' h =
      let e : not_found "File not found." ≡ shown f = ok-injective (ap (λ p. p.1) h) in cc
  own_file-found f (some file) w w' h = elim (Bool-cases (file.tenant_id === q.tenant_id)) [
    | inl own ↦ (file, refl, eq_of_=== file.tenant_id q.tenant_id own, rw own at h)
    | inr other ↦
        let h1 = rw other at h in
        let e : not_found "File not found." ≡ shown f = ok-injective (ap (λ p. p.1) h1) in cc
  ]

  -- Where a completion of a pending upload shows a file, the record under the id is of the path's tenant, the
  -- principal may update files of the tenant, the storage had an object that is of the file's tenant, type
  -- and size, and the file that is shown is the pending one with the status `ready`, the object's checksum
  -- and the time of the request. It was written in the place of the pending one. One audit event was
  -- appended: by the principal, for the file and its tenant, and linked to the hash of the tenant's last
  -- event, or to null if the tenant had none. One job was enqueued, for an event that names the file and
  -- the tenant.
  pub complete_route_sound :
      (file f : StoredFile) (w w' : FileWorld S)
      → get_file_record_by_id w.repository q.file_id ≡ some file
      → file.status ≡ "pending_upload"
      → complete_route storage c a q w ≡ (w', shown f)
      → (file.tenant_id ≡ q.tenant_id)
        × (authorize (some q.principal) q.tenant_id "file_record" "update" ≡ none)
        × Completed file f w w'
  unfolding complete_route get_file_record_by_id
  complete_route_sound file f w w' found pending h =
      let h1 = answered-ok _ w' f h in
      let (allowed, h2) = gated-ok _ _ w w' f h1 in
      let (file', found', own, h3) = own_file-found f _ w w' h2 in
      let same : file' ≡ file = cc (found, found') in
      (
        subst (λ x. x.tenant_id ≡ q.tenant_id) same own,
        allowed,
        complete_found-ok file f w w' (subst (λ s. (s === "ready") ≡ false) (sym pending) refl)
            (subst (λ x. complete_found storage c a q (some x) w ≡ (w', ok (shown f))) same h3),
      )
