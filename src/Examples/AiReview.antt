-- ===== src/Examples/AiReview.antt =====
-- The intake of a drawing sheet without a title.
use xygo_aec.Base.{
  true, false, List, [], ok, All, is_blank, ◌≡◌, refl, str, Value, null, obj, field, end,
}
use xygo_aec.Access.{assert_scope}
use xygo_aec.AiReview.{
  ReviewRun, EvidenceRecord, run_deterministic_checks, IntakeResult, run_review_intake,
}
use xygo_aec.AiReview.Intake.{HasFinding, run_deterministic_checks-accepted}
use xygo_aec.Examples.Data.{session}

abbrev run : ReviewRun
run = record {
  id = "run1";
  tenant_id = "tenant-a";
  project_id = "p1";
  artifact_type = "drawing_sheet";
  artifact_id = "a1";
  status = str "queued";
  rule_version = str "rules-v1";
  model_version = str "model-sim-v1";
  jurisdiction_profile = null;
  staged = true;
}

abbrev sheet : Value
sheet = obj (field "sheetNumber" (str "A-101") end)

named : is_blank run.id ≡ false
unfolding is_blank
named = refl

abbrev no_evidence : List EvidenceRecord
no_evidence = []

run_deterministic_checks-accepted_example :
    All (HasFinding run no_evidence) (run_deterministic_checks run sheet)
run_deterministic_checks-accepted_example =
    run_deterministic_checks-accepted run sheet no_evidence named

taken_in : (r : IntakeResult) × (run_review_intake session run sheet ≡ ok r)
unfolding run_review_intake assert_scope
taken_in = (_, refl)
