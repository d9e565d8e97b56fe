-- ===== src/Examples/Documents.antt =====
-- An approved file that is validated again.
use xygo_aec.Base.{List, [], ◌∷◌, ok, true, false, ◌≡◌, refl, str, null, undefined}
use xygo_aec.Access.{assert_scope}
use xygo_aec.Documents.{FileRecord, validate_file_upload}
use xygo_aec.Documents.History.{
  Step, validate, apply_step, run_file, has_check_out, SameContent, run_file-approved,
}
use xygo_aec.Examples.Data.{session}

abbrev file : FileRecord
file = record {
  id = "f1";
  tenant_id = "tenant-a";
  project_id = "p1";
  discipline = null;
  file_class = "design_file";
  original_filename = "plan.pdf";
  safe_filename = str "plan.pdf";
  mime_type = "application/pdf";
  detected_type = "pdf";
  size_bytes = 100;
  storage_key = "k1";
  revision = str "A";
  lifecycle_status = str "approved";
  visibility_class = str "project_only";
  integrity_hash = str "digest";
  validation_state = str "pending";
  malware_scan_state = str "pending";
  superseded_file_id = undefined;
  staged = true;
}

abbrev steps : List Step
steps = validate session ("application/pdf" ∷ []) 1000 ∷ []

validated : (g : FileRecord) × (run_file file steps ≡ ok g)
unfolding run_file apply_step validate_file_upload assert_scope
validated = (_, refl)

run_file-approved_example :
    (has_check_out steps ≡ false)
    × (validated.0.lifecycle_status ≡ str "approved")
    × SameContent file validated.0
run_file-approved_example = run_file-approved file validated.0 steps refl validated.1
