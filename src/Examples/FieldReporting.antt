-- ===== src/Examples/FieldReporting.antt =====
-- A report that is drafted and approved.
use xygo_aec.Base.{true, false, List, [], ◌∷◌, none, ok, ◌≡◌, refl, str, null}
use xygo_aec.FieldReporting.{
  note, checklist, FieldReport, generate_report_draft, set_review_status, has_draft, to_client_view,
}
use xygo_aec.FieldReporting.Visibility.{
  Step, generate, review, apply_step, run_report, is_some, to_client_view-run_report,
}

abbrev report : FieldReport
report = record {
  id = "r1";
  tenant_id = "tenant-a";
  project_id = "p1";
  site_name = "North yard";
  report_type = "daily_log";
  author = "ana";
  captured_at = null;
  observations = note "Rain" ∷ checklist "Fence" true ∷ [];
  status = "captured";
  draft = none;
  reviewed_by = null;
  review_note = null;
  client_visible = false;
  staged = true;
}

abbrev steps : List Step
steps = generate ∷ review "approved" (str "bo") null ∷ []

approved : (q : FieldReport) × (run_report report steps ≡ ok q)
unfolding run_report apply_step generate_report_draft set_review_status
approved = (_, refl)

to_client_view-run_report_example :
    (is_some (to_client_view approved.0) ≡ true)
    × (is_some (to_client_view approved.0) ≡ true → has_draft approved.0.draft ≡ true)
to_client_view-run_report_example =
    to_client_view-run_report report approved.0 steps refl refl approved.1
