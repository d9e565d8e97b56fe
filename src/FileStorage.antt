-- ===== src/FileStorage.antt =====
-- The records of stored files in packages/file-storage/src/index.js: what an upload may be, the record
-- that is made for it, and what is shown of it.
pub mod Keys
use Prim.Native.Char.{Char, code}
use Prim.Native.String
use xygo_aec.Base.{
  ℕ, zero, suc, ◌+◌, ◌*◌, String, Bool, true, false, not, ◌&&◌, ◌||◌, List, [], ◌∷◌, Option, none,
  some, Result, ok, throw, ◌>>=◌, ◌>>◌, throw_if, includes, ◌⧺◌, ◌===◌, ◌==◌, ltb, leb, trim,
  is_blank, to_lower, has_prefix, decimal, if◌then◌else◌, Value, null, str, member, is_true,
  set_has, ◌or_else◌,
}

abbrev pub file_classes : List String
file_classes = "document" ∷ "evidence" ∷ "report_attachment" ∷ "report_photo" ∷ []

abbrev pub file_statuses : List String
file_statuses = "pending_upload" ∷ "ready" ∷ "deleting" ∷ "deleted" ∷ []

-- The fields of the configuration that records depend on.
pub record Configuration : Type 0 where
  pub max_file_bytes : ℕ
  pub retention_days : ℕ
  pub allowed_mime_types : List String

-- `requiredString(value, label)` of this package, which trims.
unfoldable pub required_trimmed : Value → String → Result String
required_trimmed (str s) label = if is_blank s then throw (label ⧺ " is required.") else ok (trim s)
required_trimmed _ label = throw (label ⧺ " is required.")

-- `text.split(";", 1)[0]`
unfoldable pub before_semicolon : String → String
before_semicolon String.[] = ""
before_semicolon (String.◌∷◌ c s) =
    let rest = before_semicolon s in if code c == 59 then "" else String.◌∷◌ c rest

unfoldable pub normalized_mime_type : Value → Result String
unfolding required_trimmed before_semicolon
normalized_mime_type value = do
  text ← required_trimmed value "MIME type"
  ok (trim (before_semicolon (to_lower text)))

-- `path.basename(text)` of POSIX: the last part between slashes that is not empty.
abbrev later_part : String → String → String
later_part part current = if current === "" then part else current

basename_from : String → String → String → String
basename_from part current String.[] = later_part part current
basename_from part current (String.◌∷◌ c s) =
    basename_from (if code c == 47 then later_part part current else part)
      (if code c == 47 then "" else current ⧺ String.◌∷◌ c "") s

unfoldable pub basename : String → String
unfolding basename_from
basename s = basename_from "" "" s

-- `text.length`, in characters.
unfoldable pub character_count : String → ℕ
character_count String.[] = 0
character_count (String.◌∷◌ c s) = suc (character_count s)

unfoldable pub has_control : String → Bool
has_control String.[] = false
has_control (String.◌∷◌ c s) = leb (code c) 31 || code c == 127 || has_control s

unfoldable pub safe_filename : Value → Result String
unfolding required_trimmed basename character_count has_control
safe_filename value = do
  text ← required_trimmed value "Original filename"
  let filename = basename text
  throw_if
      (ltb 255 (character_count filename)
        || has_control filename
        || (filename === ".")
        || (filename === ".."))
      "Original filename is invalid or too long."
  ok filename

-- `Number(value)`: a whole number, or anything else.
pub data Size : Type 0 where
  whole : ℕ → Size
  other_size : Size

abbrev max_safe_integer : ℕ
max_safe_integer = 9007199254740991

abbrev is_size : ℕ → Size → Bool
is_size limit other_size = false
is_size limit (whole n) = ltb 0 n && leb n max_safe_integer && leb n limit

abbrev size_or_zero : Size → ℕ
size_or_zero other_size = 0
size_or_zero (whole n) = n

pub record Normalized : Type 0 where
  pub mime_type : String
  pub size_bytes : ℕ
  pub original_filename : String

unfoldable pub validate_file_input : Value → Size → Configuration → Result Normalized
unfolding normalized_mime_type safe_filename
validate_file_input input size configuration = do
  mime_type ← normalized_mime_type (member input "mimeType")
  throw_if (not (includes configuration.allowed_mime_types mime_type))
      ("MIME type " ⧺ mime_type ⧺ " is not allowed.")
  throw_if (not (is_size configuration.max_file_bytes size))
      ("File size must be between 1 and " ⧺ decimal configuration.max_file_bytes ⧺ " bytes.")
  throw_if (not (set_has file_classes (member input "fileClass"))) "File class is not allowed."
  throw_if
      (set_has ("report_photo" ∷ []) (member input "fileClass")
        && not (has_prefix "image/" mime_type))
      "Report photos must use an allowed image MIME type."
  original_filename ← safe_filename (member input "originalFilename")
  ok (record {
    mime_type = mime_type;
    size_bytes = size_or_zero size;
    original_filename = original_filename;
  })

-- `[a-z0-9_-]`
unfoldable pub is_key_character : Char → Bool
is_key_character c =
    (leb 97 (code c) && leb (code c) 122)
    || (leb 48 (code c) && leb (code c) 57)
    || code c == 95
    || code c == 45

-- `text.replace(/[^a-z0-9_-]+/g, "-")`; the flag tells whether a run was begun before.
unfoldable pub replace_runs : Bool → String → String
replace_runs begun String.[] = ""
replace_runs begun (String.◌∷◌ c s) =
    let rest = replace_runs (not (is_key_character c)) s in
    if is_key_character c then String.◌∷◌ c rest else if begun then rest else String.◌∷◌ "-" rest

unfoldable pub drop_dashes : String → String
drop_dashes String.[] = ""
drop_dashes (String.◌∷◌ c s) =
    let rest = drop_dashes s in if code c == 45 then rest else String.◌∷◌ c s

-- A character before a text without dashes at its end.
abbrev before_end : Char → String → String
before_end c String.[] = if code c == 45 then "" else String.◌∷◌ c ""
before_end c (String.◌∷◌ d s) = String.◌∷◌ c (String.◌∷◌ d s)

unfoldable pub drop_end_dashes : String → String
drop_end_dashes String.[] = ""
drop_end_dashes (String.◌∷◌ c s) = before_end c (drop_end_dashes s)

-- `text.slice(0, n)`
unfoldable pub slice : ℕ → String → String
slice zero s = ""
slice (suc n) String.[] = ""
slice (suc n) (String.◌∷◌ c s) = String.◌∷◌ c (slice n s)

abbrev or_tenant : String → String
or_tenant s = if s === "" then "tenant" else s

-- `digest` is the SHA-256 digest of a text in hexadecimal.
unfoldable pub tenant_prefix : (String → String) → String → String
unfolding replace_runs drop_dashes drop_end_dashes slice
tenant_prefix digest tenant_id =
    or_tenant (slice 48 (drop_end_dashes (drop_dashes (replace_runs false (to_lower tenant_id)))))
    ⧺ "-"
    ⧺ slice 12 (digest tenant_id)

-- Times are numbers of milliseconds.
pub record StoredFile : Type 0 where
  pub id : String
  pub tenant_id : String
  pub project_id : String
  pub field_report_id : Value
  pub file_class : Value
  pub original_filename : String
  pub mime_type : String
  pub size_bytes : ℕ
  pub storage_key : String
  pub status : String
  pub checksum_sha256 : Option String
  pub client_visible : Bool
  pub created_by : String
  pub created_at : ℕ
  pub updated_at : ℕ
  pub retention_until : ℕ
  pub deleted_at : Option ℕ

abbrev pub storage_key_of : (String → String) → String → String → String
storage_key_of digest tenant_id id = "tenants/" ⧺ tenant_prefix digest tenant_id ⧺ "/files/" ⧺ id

unfoldable pub create_pending_file_record :
    (String → String) → Value → Size → Configuration → ℕ → String → Result StoredFile
unfolding required_trimmed validate_file_input tenant_prefix
create_pending_file_record digest input size configuration now id = do
  tenant_id ← required_trimmed (member input "tenantId") "File tenantId"
  project_id ← required_trimmed (member input "projectId") "File projectId"
  created_by ← required_trimmed (member input "createdBy") "File createdBy"
  normalized ← validate_file_input input size configuration
  ok (record {
    id = id;
    tenant_id = tenant_id;
    project_id = project_id;
    field_report_id = member input "fieldReportId" or_else null;
    file_class = member input "fileClass";
    original_filename = normalized.original_filename;
    mime_type = normalized.mime_type;
    size_bytes = normalized.size_bytes;
    storage_key = storage_key_of digest tenant_id id;
    status = "pending_upload";
    checksum_sha256 = none;
    client_visible = is_true (member input "clientVisible");
    created_by = created_by;
    created_at = now;
    updated_at = now;
    retention_until = now + configuration.retention_days * 86400000;
    deleted_at = none;
  })

unfoldable pub assert_file_record : StoredFile → Result (Unit {0})
assert_file_record file = do
  throw_if (is_blank file.id) "File id is required."
  throw_if (is_blank file.tenant_id) "File tenantId is required."
  throw_if (is_blank file.storage_key) "File storage key is required."
  throw_if (not (includes file_statuses file.status)) "File status is invalid."

-- `localObjectPaths` tests a key by `/^tenants\/[a-z0-9_-]+\/[a-z]+\/[a-f0-9-]+$/`. What was read after
-- `tenants/`: at the start of a part, in a part, or what does not fit.
pub data KeyScan : Type 0 where
  tenant_start tenant_part class_start class_part id_start id_part no_key : KeyScan

abbrev is_lower : Char → Bool
is_lower c = leb 97 (code c) && leb (code c) 122

-- `[a-f0-9-]`
abbrev pub is_id_character : Char → Bool
is_id_character c =
    (leb 97 (code c) && leb (code c) 102) || (leb 48 (code c) && leb (code c) 57) || code c == 45

unfoldable pub scan_key_character : KeyScan → Char → KeyScan
scan_key_character tenant_start c = if is_key_character c then tenant_part else no_key
scan_key_character tenant_part c =
    if code c == 47 then class_start else if is_key_character c then tenant_part else no_key
scan_key_character class_start c = if is_lower c then class_part else no_key
scan_key_character class_part c =
    if code c == 47 then id_start else if is_lower c then class_part else no_key
scan_key_character id_start c = if is_id_character c then id_part else no_key
scan_key_character id_part c = if is_id_character c then id_part else no_key
scan_key_character no_key c = no_key

unfoldable pub scan_key : KeyScan → String → KeyScan
scan_key scan String.[] = scan
scan_key scan (String.◌∷◌ c s) = scan_key (scan_key_character scan c) s

abbrev is_complete : KeyScan → Bool
is_complete id_part = true
is_complete _ = false

after_prefix : String → String → Option String
after_prefix String.[] s = some s
after_prefix (String.◌∷◌ c p) String.[] = none
after_prefix (String.◌∷◌ c p) (String.◌∷◌ d s) =
    let rest = after_prefix p s in if code c == code d then rest else none

abbrev is_scanned : Option String → Bool
is_scanned none = false
is_scanned (some rest) = is_complete (scan_key tenant_start rest)

unfoldable pub is_local_key : String → Bool
unfolding after_prefix
is_local_key key = is_scanned (after_prefix "tenants/" key)
