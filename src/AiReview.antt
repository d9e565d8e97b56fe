-- ===== src/AiReview.antt =====
-- packages/ai-review/src/index.js: review runs, the deterministic checks, findings and what people make
-- of them.
pub mod Intake
use xygo_aec.Base.{
  ℕ, ◌+◌, String, Bool, true, false, not, ◌&&◌, ◌||◌, List, [], ◌∷◌, ◌++◌, map, any, length, Result,
  ok, ◌>>=◌, ◌>>◌, throw_if, includes, ◌⧺◌, ◌===◌, has_part, decimal, if◌then◌else◌, Value, Values,
  nil, cons, undefined, null, str, arr, obj, field, end, member, is_text, truthy, set_has,
  ◌or_else◌, required_string, required_array,
}
use xygo_aec.Access.{Session, assert_scope}
use xygo_aec.Audit.{Crypto, Ambient}
use xygo_aec.Emission.{user_event, aggregate_event, Emitted, emit, texts, one_field}

abbrev pub finding_categories : List String
finding_categories =
    "missing_dimensions" ∷ "missing_annotations" ∷ "missing_title_block_information"
    ∷ "inconsistent_scale_declarations" ∷ "unresolved_references" ∷ "missing_sheets"
    ∷ "incomplete_schedules" ∷ "duplicate_sheet_numbers" ∷ "revision_inconsistencies"
    ∷ "overlapping_geometry" ∷ "discipline_conflict" ∷ "clearance_concern"
    ∷ "missing_model_properties" ∷ "ids_requirement_failure" ∷ "potential_code_concern"
    ∷ "permit_package_completeness_concern" ∷ "insufficient_information" ∷ []

abbrev pub human_dispositions : List String
human_dispositions =
    "pending" ∷ "accepted" ∷ "rejected_false_positive" ∷ "needs_more_information"
    ∷ "converted_to_issue" ∷ []

pub record ReviewRun : Type 0 where
  pub id : String
  pub tenant_id : String
  pub project_id : String
  pub artifact_type : String
  pub artifact_id : String
  pub status : Value
  pub rule_version : Value
  pub model_version : Value
  pub jurisdiction_profile : Value
  pub staged : Bool

unfoldable pub create_review_run : Value → Result ReviewRun
create_review_run input = do
  id ← required_string (member input "id") "Review run id"
  tenant_id ← required_string (member input "tenantId") "Review run tenantId"
  project_id ← required_string (member input "projectId") "Review run projectId"
  artifact_type ← required_string (member input "artifactType") "Review run artifactType"
  artifact_id ← required_string (member input "artifactId") "Review run artifactId"
  ok (record {
    id = id;
    tenant_id = tenant_id;
    project_id = project_id;
    artifact_type = artifact_type;
    artifact_id = artifact_id;
    status = member input "status" or_else str "queued";
    rule_version = member input "ruleVersion" or_else str "rules-v1";
    model_version = member input "modelVersion" or_else str "model-sim-v1";
    jurisdiction_profile = member input "jurisdictionProfile" or_else null;
    staged = true;
  })

abbrev pub has_sheet : Value → Bool
has_sheet artifact = truthy (member artifact "sheetNumber")

abbrev pub has_model : Value → Bool
has_model artifact = truthy (member artifact "modelName")

unfoldable pub classify_artifact : ReviewRun → Value → ReviewRun
classify_artifact run artifact = record run {
  artifact_type =
      if has_sheet artifact
      then "drawing_sheet"
      else if has_model artifact
      then "bim_model"
      else run.artifact_type;
  status = str "classified";
}

-- A finding of the checks before it is numbered: its category and description.
abbrev pub Draft : Type 0
Draft = String × String

abbrev pub when : Bool → Draft → List Draft
when b d = if b then d ∷ [] else []

abbrev pub title_draft : Draft
title_draft = ("missing_annotations", "Potential issue: drawing sheet title is missing.")

abbrev pub review_draft : Draft
review_draft = (
  "permit_package_completeness_concern",
  "Potential issue: sheet has not completed staged AI review status.",
)

abbrev pub model_draft : Draft
model_draft =
    ("missing_model_properties", "Potential issue: model approval state remains unapproved.")

-- The conditions of the three checks.
abbrev pub lacks_title : Value → Bool
lacks_title artifact = has_sheet artifact && not (truthy (member artifact "sheetTitle"))

abbrev pub lacks_review : Value → Bool
lacks_review artifact = has_sheet artifact && is_text (member artifact "aiReviewStatus") "pending"

abbrev pub is_unapproved : Value → Bool
is_unapproved artifact =
    has_model artifact && is_text (member artifact "approvalState") "unapproved"

unfoldable pub draft_findings : Value → List Draft
draft_findings artifact =
    when (lacks_title artifact) title_draft
    ++ when (lacks_review artifact) review_draft
    ++ when (is_unapproved artifact) model_draft

pub record RuleResult : Type 0 where
  pub id : String
  pub review_run_id : String
  pub rule_version : Value
  pub category : String
  pub description : String
  pub deterministic : Bool
  pub staged : Bool

-- The drafts from the one with the number `n` on.
unfoldable pub number_findings : ReviewRun → ℕ → List Draft → List RuleResult
number_findings run n [] = []
number_findings run n ((category, description) ∷ rest) =
    record {
      id = run.id ⧺ "-rule-" ⧺ decimal n;
      review_run_id = run.id;
      rule_version = run.rule_version;
      category = category;
      description = description;
      deterministic = true;
      staged = true;
    }
    ∷ number_findings run (n + 1) rest

unfoldable pub run_deterministic_checks : ReviewRun → Value → List RuleResult
unfolding draft_findings number_findings
run_deterministic_checks run artifact = number_findings run 1 (draft_findings artifact)

pub record EvidenceRecord : Type 0 where
  pub id : String
  pub review_run_id : String
  pub evidence_type : String
  pub references : Value
  pub excerpt : Value
  pub staged : Bool

unfoldable pub create_evidence_record : Value → Result EvidenceRecord
create_evidence_record input = do
  id ← required_string (member input "id") "Evidence id"
  review_run_id ← required_string (member input "reviewRunId") "Evidence reviewRunId"
  evidence_type ← required_string (member input "evidenceType") "Evidence evidenceType"
  required_array (member input "references" or_else arr nil) "Evidence references"
  ok (record {
    id = id;
    review_run_id = review_run_id;
    evidence_type = evidence_type;
    references = member input "references";
    excerpt = member input "excerpt" or_else null;
    staged = true;
  })

pub record Finding : Type 0 where
  pub id : String
  pub review_run_id : String
  pub rule_or_model_version : Value
  pub category : String
  pub title : String
  pub description : String
  pub severity : String
  pub confidence : Value
  pub evidence_type : Value
  pub evidence_references : Value
  pub referenced_standard : Value
  pub jurisdiction_profile : Value
  pub assumptions : Value
  pub missing_information : Value
  pub suggested_next_action : Value
  pub assigned_discipline : Value
  pub human_disposition : Value
  pub staged : Bool
  pub related_issue_id : Value

abbrev pub is_cautious : String → Bool
is_cautious description =
    has_part "Potential issue" description || has_part "Requires qualified review" description

unfoldable pub create_finding : Value → Result Finding
create_finding input = do
  id ← required_string (member input "id") "Finding id"
  review_run_id ← required_string (member input "reviewRunId") "Finding reviewRunId"
  category ← required_string (member input "category") "Finding category"
  title ← required_string (member input "title") "Finding title"
  description ← required_string (member input "description") "Finding description"
  severity ← required_string (member input "severity") "Finding severity"
  throw_if (not (includes finding_categories category)) ("Unknown finding category: " ⧺ category)
  throw_if (not (is_cautious description)) "AI findings must use staged cautionary language."
  ok (record {
    id = id;
    review_run_id = review_run_id;
    rule_or_model_version = member input "ruleOrModelVersion" or_else str "hybrid-v1";
    category = category;
    title = title;
    description = description;
    severity = severity;
    confidence = member input "confidence" or_else str "medium";
    evidence_type = member input "evidenceType" or_else str "hybrid";
    evidence_references = member input "evidenceReferences" or_else arr nil;
    referenced_standard = member input "referencedStandard" or_else null;
    jurisdiction_profile = member input "jurisdictionProfile" or_else null;
    assumptions = member input "assumptions" or_else arr nil;
    missing_information = member input "missingInformation" or_else arr nil;
    suggested_next_action =
        member input "suggestedNextAction" or_else str "Requires qualified review";
    assigned_discipline = member input "assignedDiscipline" or_else null;
    human_disposition = member input "humanDisposition" or_else str "pending";
    staged = true;
    related_issue_id = undefined;
  })

abbrev pub evidence_ids : List EvidenceRecord → List String
evidence_ids [] = []
evidence_ids (e ∷ es) = e.id ∷ evidence_ids es

abbrev pub rule_finding_input : ReviewRun → RuleResult → List EvidenceRecord → Value
rule_finding_input run r records = obj (
    field "id" (str (r.id ⧺ "-finding")) (
      field "reviewRunId" (str run.id) (
        field "ruleOrModelVersion" r.rule_version (
          field "category" (str r.category) (
            field "title" (str "Staged review finding") (
              field "description" (str (r.description ⧺ " Requires qualified review.")) (
                field "severity" (str "medium") (
                  field "evidenceType" (str "deterministic_rule") (
                    field "evidenceReferences" (texts (evidence_ids records))
                      (field "assignedDiscipline" (str "architecture") end))))))))))

unfoldable pub assemble_finding_from_rule :
    ReviewRun → RuleResult → List EvidenceRecord → Result Finding
unfolding create_finding
assemble_finding_from_rule run r records = create_finding (rule_finding_input run r records)

-- A related issue left out is null.
unfoldable pub set_human_disposition : Finding → String → Value → Result Finding
set_human_disposition finding next related = do
  throw_if (not (includes human_dispositions next)) ("Unknown human disposition: " ⧺ next)
  throw_if ((next === "converted_to_issue") && not (truthy related))
      "Converted findings require a related issue id."
  ok (record finding { human_disposition = str next; related_issue_id = related })

unfoldable pub emit_ai_review_audit :
    Crypto → Ambient → Session → ReviewRun → Finding → String → Result Emitted
emit_ai_review_audit c a session run finding action =
    emit c a (user_event run.tenant_id session.user_id action "ai_finding" finding.id) (
      aggregate_event action "ai_finding" finding.id run.tenant_id (one_field "reviewRunId" run.id))

pub record IntakeResult : Type 0 where
  pub review_run : ReviewRun
  pub rule_results : List RuleResult

abbrev pub intake_status : List RuleResult → String
intake_status [] = "completed"
intake_status (r ∷ rs) = "awaiting_human_review"

unfoldable pub run_review_intake : Session → ReviewRun → Value → Result IntakeResult
unfolding classify_artifact run_deterministic_checks
run_review_intake session run artifact = do
  assert_scope session run.tenant_id run.project_id
  ok (
      let classified =
        classify_artifact (record run { status = str "intake_validated" }) artifact in
      let results = run_deterministic_checks classified artifact in
      record {
        review_run = record classified { status = str (intake_status results) };
        rule_results = results;
      })
