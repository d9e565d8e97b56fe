-- ===== src/Documents/History.antt =====
-- Runs of check-out, validation and revision on a file of packages/documents/src/index.js: what happens
-- to an approved one.
use xygo_aec.Base.{
  ℕ, String, Bool, true, false, not, ◌||◌, List, [], ◌∷◌, Result, ok, ◌>>=◌, includes, ltb, str,
  set_has, ◌≡◌, refl, sym, ap, ◌∙◌, bind_inversion, ok-injective, throw_if-bind,
}
use xygo_aec.Access.{Session, assert_scope-bind}
use xygo_aec.Documents.{FileRecord, check_out_file, validate_file_upload}

-- A call that gives the file back changed.
pub data Step : Type 0 where
  check_out : Session → Step
  validate : Session → List String → ℕ → Step

unfoldable pub apply_step : FileRecord → Step → Result FileRecord
apply_step f (check_out session) = check_out_file session f
apply_step f (validate session mime_types max_size) =
    validate_file_upload session f mime_types max_size

unfoldable pub run_file : FileRecord → List Step → Result FileRecord
run_file f [] = ok f
run_file f (s ∷ ss) = apply_step f s >>= λ g. run_file g ss

abbrev is_check_out : Step → Bool
is_check_out (check_out session) = true
is_check_out (validate session mime_types max_size) = false

abbrev pub has_check_out : List Step → Bool
has_check_out [] = false
has_check_out (s ∷ ss) = is_check_out s || has_check_out ss

-- The same file with the same content.
pub record SameContent (f g : FileRecord) : Type 0 where
  pub id : g.id ≡ f.id
  pub storage_key : g.storage_key ≡ f.storage_key
  pub integrity_hash : g.integrity_hash ≡ f.integrity_hash
  pub revision : g.revision ≡ f.revision

-- A step on an approved file is no check-out, and leaves it approved.
apply_step_approved :
    (f g : FileRecord) (s : Step)
    → f.lifecycle_status ≡ str "approved"
    → apply_step f s ≡ ok g
    → (is_check_out s ≡ false) × (g.lifecycle_status ≡ str "approved") × SameContent f g
unfolding apply_step check_out_file validate_file_upload
apply_step_approved f g (check_out session) approved h =
    let (scope, h1) = assert_scope-bind session f.tenant_id f.project_id _ h in
    let (free, h2) = throw_if-bind (set_has ("approved" ∷ []) f.lifecycle_status) _ _ h1 in
    absurd (cc (sym (ap (set_has ("approved" ∷ [])) approved) ∙ free))
apply_step_approved f g (validate session mime_types max_size) approved h =
    let (scope, h1) = assert_scope-bind session f.tenant_id f.project_id _ h in
    let (allowed, h2) = throw_if-bind (not (includes mime_types f.mime_type)) _ _ h1 in
    let (small, h3) = throw_if-bind (ltb max_size f.size_bytes) _ _ h2 in
    let made = ok-injective h3 in
    rw (← made) (
      refl,
      rw approved refl,
      record { id = refl; storage_key = refl; integrity_hash = refl; revision = refl },
    )

-- A run on an approved file that throws nothing has no check-out, and the file stays approved with its
-- id, content and revision.
pub run_file-approved :
    (f g : FileRecord) (ss : List Step)
    → f.lifecycle_status ≡ str "approved"
    → run_file f ss ≡ ok g
    → (has_check_out ss ≡ false) × (g.lifecycle_status ≡ str "approved") × SameContent f g
unfolding run_file
run_file-approved f g [] approved h =
    let made = ok-injective h in
    rw (← made) (
      refl,
      approved,
      record { id = refl; storage_key = refl; integrity_hash = refl; revision = refl },
    )
run_file-approved f g (s ∷ ss) approved h =
    let (e, made, rest) = bind_inversion (apply_step f s) _ h in
    let (kept, still, same) = apply_step_approved f e s approved made in
    let (none_later, end, content) = run_file-approved e g ss still rest in
    (
      rw (kept, none_later) refl,
      end,
      record {
        id = content.id ∙ same.id;
        storage_key = content.storage_key ∙ same.storage_key;
        integrity_hash = content.integrity_hash ∙ same.integrity_hash;
        revision = content.revision ∙ same.revision;
      },
    )
