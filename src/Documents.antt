-- ===== src/Documents.antt =====
-- packages/documents/src/index.js: file records, their revisions, check-out and validation.
pub mod History
use Prim.Native.Char.{Char, code}
use Prim.Native.String
use xygo_aec.Base.{
  ℕ, String, Bool, true, false, not, ◌&&◌, ◌||◌, List, [], ◌∷◌, Option, none, some, Result, ok,
  ◌>>=◌, ◌>>◌, throw_if, includes, ◌⧺◌, ◌===◌, ◌==◌, ltb, leb, if◌then◌else◌, Value, undefined,
  null, str, obj, field, end, member, is_true, set_has, shown, ◌or_else◌, required_string,
}
use xygo_aec.Access.{Session, assert_scope}
use xygo_aec.Audit.{Crypto, Ambient, get_or}
use xygo_aec.Emission.{user_event, aggregate_event, Emitted, emit}

abbrev pub file_classes : List String
file_classes =
    "general_document" ∷ "design_file" ∷ "drawing_source" ∷ "model_source" ∷ "review_artifact"
    ∷ "permit_document" ∷ []

abbrev pub file_statuses : List String
file_statuses =
    "uploaded" ∷ "quarantined" ∷ "validated" ∷ "checked_out" ∷ "approved" ∷ "superseded" ∷ []

-- `[a-zA-Z0-9._-]`
is_safe_character : Char → Bool
is_safe_character c =
    (leb 97 (code c) && leb (code c) 122)
    || (leb 65 (code c) && leb (code c) 90)
    || (leb 48 (code c) && leb (code c) 57)
    || code c == 46
    || code c == 95
    || code c == 45

-- `name.replace(/[^a-zA-Z0-9._-]/g, "_")`
unfoldable pub safe_name : String → String
unfolding is_safe_character
safe_name String.[] = ""
safe_name (String.◌∷◌ c s) = String.◌∷◌ (if is_safe_character c then c else "_") (safe_name s)

pub record FileRecord : Type 0 where
  pub id : String
  pub tenant_id : String
  pub project_id : String
  pub discipline : Value
  pub file_class : String
  pub original_filename : String
  pub safe_filename : Value
  pub mime_type : String
  pub detected_type : String
  pub size_bytes : ℕ
  pub storage_key : String
  pub revision : Value
  pub lifecycle_status : Value
  pub visibility_class : Value
  pub integrity_hash : Value
  pub validation_state : Value
  pub malware_scan_state : Value
  pub superseded_file_id : Value
  pub staged : Bool

-- The size of the argument is a number or left out.
unfoldable pub create_file_record : Crypto → Value → Option ℕ → Result FileRecord
unfolding safe_name
create_file_record c input size_bytes = do
  id ← required_string (member input "id") "File record id"
  tenant_id ← required_string (member input "tenantId") "File record tenantId"
  project_id ← required_string (member input "projectId") "File record projectId"
  file_class ← required_string (member input "fileClass") "File record fileClass"
  original_filename ←
      required_string (member input "originalFilename") "File record originalFilename"
  mime_type ← required_string (member input "mimeType") "File record mimeType"
  detected_type ← required_string (member input "detectedType") "File record detectedType"
  storage_key ← required_string (member input "storageKey") "File record storageKey"
  throw_if (not (includes file_classes file_class)) ("Unknown file class: " ⧺ file_class)
  throw_if (not (is_true (member input "staged"))) "File records must be staged synthetic records."
  ok (record {
    id = id;
    tenant_id = tenant_id;
    project_id = project_id;
    discipline = member input "discipline" or_else null;
    file_class = file_class;
    original_filename = original_filename;
    safe_filename = member input "safeFilename" or_else str (safe_name original_filename);
    mime_type = mime_type;
    detected_type = detected_type;
    size_bytes = get_or size_bytes 0;
    storage_key = storage_key;
    revision = member input "revision" or_else str "A";
    lifecycle_status = member input "lifecycleStatus" or_else str "uploaded";
    visibility_class = member input "visibilityClass" or_else str "project_only";
    integrity_hash =
        member input "integrityHash" or_else str (c.sha256 (storage_key ⧺ ":" ⧺ original_filename));
    validation_state = member input "validationState" or_else str "pending";
    malware_scan_state = member input "malwareScanState" or_else str "pending";
    superseded_file_id = undefined;
    staged = true;
  })

unfoldable pub create_file_revision : Crypto → FileRecord → Value → Result FileRecord
create_file_revision c previous input = do
  id ← required_string (member input "id") "File revision id"
  storage_key ← required_string (member input "storageKey") "File revision storageKey"
  ok (
      let next_revision = member input "revision" or_else str (shown previous.revision ⧺ ".1") in
      record previous {
        id = id;
        storage_key = storage_key;
        revision = next_revision;
        lifecycle_status = member input "lifecycleStatus" or_else str "uploaded";
        superseded_file_id = str previous.id;
        integrity_hash =
            member input "integrityHash"
            or_else str (c.sha256 (storage_key ⧺ ":" ⧺ shown next_revision));
        validation_state = member input "validationState" or_else str "pending";
        malware_scan_state = member input "malwareScanState" or_else str "pending";
      })

unfoldable pub check_out_file : Session → FileRecord → Result FileRecord
check_out_file session f = do
  assert_scope session f.tenant_id f.project_id
  throw_if (set_has ("approved" ∷ []) f.lifecycle_status)
      "Approved historical files cannot be mutated in place."
  ok (record f { lifecycle_status = str "checked_out" })

unfoldable pub validate_file_upload : Session → FileRecord → List String → ℕ → Result FileRecord
validate_file_upload session f allowed_mime_types max_size_bytes = do
  assert_scope session f.tenant_id f.project_id
  throw_if (not (includes allowed_mime_types f.mime_type))
      "Upload rejected: MIME type is not allowed."
  throw_if (ltb max_size_bytes f.size_bytes) "Upload rejected: file exceeds staged size limit."
  ok (record f {
    validation_state = str "valid";
    malware_scan_state = str "clean";
    lifecycle_status =
        if set_has file_statuses f.lifecycle_status then f.lifecycle_status else str "validated";
  })

unfoldable pub emit_file_audit : Crypto → Ambient → Session → FileRecord → String → Result Emitted
emit_file_audit c a session f action =
    emit c a (user_event f.tenant_id session.user_id action "file_record" f.id) (
      aggregate_event ("document." ⧺ action) "file_record" f.id f.tenant_id
        (obj (field "projectId" (str f.project_id) (field "revision" f.revision end))))
