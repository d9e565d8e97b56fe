-- ===== src/AiReview/Intake.antt =====
-- The way from an artifact to findings, of packages/ai-review/src/index.js.
use xygo_aec.Base.{
  ℕ, ◌+◌, String, Bool, true, false, not, ◌&&◌, ◌||◌, List, [], ◌∷◌, ◌++◌, All, ok, includes, ◌⧺◌,
  is_blank, has_part, Value, nil, undefined, null, arr, ◌or_else◌, str, required_string, ◌≡◌, refl,
  ap, arith, if◌then◌else◌, ok-injective,
}
use xygo_aec.Access.{Session, assert_scope-bind, InScope}
use xygo_aec.Emission.{texts}
use xygo_aec.AiReview.{
  evidence_ids, title_draft, review_draft, model_draft, lacks_title, lacks_review, is_unapproved,
  when, ReviewRun, Draft, draft_findings, RuleResult, number_findings, run_deterministic_checks,
  EvidenceRecord, Finding, finding_categories, is_cautious, create_finding,
  assemble_finding_from_rule, IntakeResult, classify_artifact, intake_status, run_review_intake,
}

-- A category and a description that `createFinding` accepts, with the caution that is put to it.
abbrev is_acceptable : String → String → Bool
is_acceptable category description =
    includes finding_categories category
    && not (is_blank category)
    && is_cautious (description ⧺ " Requires qualified review.")
    && not (is_blank (description ⧺ " Requires qualified review."))

abbrev every_acceptable : List Draft → Bool
every_acceptable [] = true
every_acceptable ((category, description) ∷ ds) =
    is_acceptable category description && every_acceptable ds

acceptable_three :
    (a b c : Bool)
    → every_acceptable (when a title_draft ++ when b review_draft ++ when c model_draft) ≡ true
unfolding has_part is_blank
acceptable_three true true true = refl
acceptable_three true true false = refl
acceptable_three true false true = refl
acceptable_three true false false = refl
acceptable_three false true true = refl
acceptable_three false true false = refl
acceptable_three false false true = refl
acceptable_three false false false = refl

acceptable_drafts : (artifact : Value) → every_acceptable (draft_findings artifact) ≡ true
unfolding draft_findings
acceptable_drafts artifact =
    acceptable_three (lacks_title artifact) (lacks_review artifact) (is_unapproved artifact)

and-left : (a b : Bool) → (a && b) ≡ true → a ≡ true
and-left a b h = ground arith

and-right : (a b : Bool) → (a && b) ≡ true → b ≡ true
and-right a b h = ground arith

-- A result of a check with a finding of its own.
abbrev pub HasFinding : ReviewRun → List EvidenceRecord → RuleResult → Type 0
HasFinding run records r =
    is_blank (r.id ⧺ "-finding") ≡ false
    → (f : Finding) × (assemble_finding_from_rule run r records ≡ ok f)
      × (f.category ≡ r.category)
      × (f.human_disposition ≡ str "pending")

constants_given : (is_blank "Staged review finding" ≡ false) × (is_blank "medium" ≡ false)
unfolding is_blank
constants_given = (refl, refl)

-- The finding of a result.
abbrev rule_finding : ReviewRun → List EvidenceRecord → RuleResult → Finding
rule_finding run records r = record {
  id = r.id ⧺ "-finding";
  review_run_id = run.id;
  rule_or_model_version = r.rule_version or_else str "hybrid-v1";
  category = r.category;
  title = "Staged review finding";
  description = r.description ⧺ " Requires qualified review.";
  severity = "medium";
  confidence = str "medium";
  evidence_type = str "deterministic_rule";
  evidence_references = texts (evidence_ids records);
  referenced_standard = null;
  jurisdiction_profile = null;
  assumptions = arr nil;
  missing_information = arr nil;
  suggested_next_action = str "Requires qualified review";
  assigned_discipline = str "architecture";
  human_disposition = str "pending";
  staged = true;
  related_issue_id = undefined;
}

accepted :
    (known blank cautious blank_description : Bool)
    → (known && not blank && cautious && not blank_description) ≡ true
    → (known ≡ true) × (blank ≡ false) × (cautious ≡ true) × (blank_description ≡ false)
accepted known blank cautious blank_description h =
    (ground arith, ground arith, ground arith, ground arith)

assemble_accepts :
    (run : ReviewRun) (records : List EvidenceRecord) (r : RuleResult)
    → is_blank run.id ≡ false
    → is_acceptable r.category r.description ≡ true
    → HasFinding run records r
unfolding assemble_finding_from_rule create_finding required_string
assemble_accepts run records r given good identified =
    let (known, named, cautious, described) =
      accepted (includes finding_categories r.category) (is_blank r.category)
        (is_cautious (r.description ⧺ " Requires qualified review."))
        (is_blank (r.description ⧺ " Requires qualified review.")) good in
    let (title, severity) = constants_given in
    (
      rule_finding run records r,
      rw (identified, given, named, title, described, severity, known, cautious) refl,
      refl,
      refl,
    )

number_findings-accepted :
    (run : ReviewRun) (records : List EvidenceRecord) (n : ℕ) (ds : List Draft)
    → is_blank run.id ≡ false
    → every_acceptable ds ≡ true
    → All (HasFinding run records) (number_findings run n ds)
unfolding number_findings
number_findings-accepted run records n [] given h = tt
number_findings-accepted run records n ((category, description) ∷ ds) given h =
    let good = and-left (is_acceptable category description) (every_acceptable ds) h in
    (
      assemble_accepts run records _ given good,
      number_findings-accepted run records (n + 1) ds given
          (and-right (is_acceptable category description) (every_acceptable ds) h),
    )

-- Whatever the artifact is, every result of the deterministic checks of a run that has an id becomes a
-- finding, which `createFinding` does not refuse, if its own id is not blank: it has the result's
-- category and waits for a person.
pub run_deterministic_checks-accepted :
    (run : ReviewRun) (artifact : Value) (records : List EvidenceRecord)
    → is_blank run.id ≡ false
    → All (HasFinding run records) (run_deterministic_checks run artifact)
unfolding run_deterministic_checks
run_deterministic_checks-accepted run artifact records given =
    number_findings-accepted run records 1 (draft_findings artifact) given
      (acceptable_drafts artifact)

-- Whether a check has something to say of the artifact.
abbrev pub needs_review : Value → Bool
needs_review artifact = lacks_title artifact || lacks_review artifact || is_unapproved artifact

abbrev pub expected_status : Bool → String
expected_status needs = if needs then "awaiting_human_review" else "completed"

intake_status-drafts :
    (run : ReviewRun) (a b c : Bool)
    → intake_status
        (number_findings run 1 (when a title_draft ++ when b review_draft ++ when c model_draft))
      ≡ expected_status (a || b || c)
unfolding number_findings
intake_status-drafts run true b c = refl
intake_status-drafts run false true c = refl
intake_status-drafts run false false true = refl
intake_status-drafts run false false false = refl

-- An intake that succeeds was made by a staged session of the run's tenant with access to its project.
-- The run then awaits a person exactly if a drawing sheet lacks a title or its review, or a model is not
-- approved, and else it is completed; its tenant and project stay as they were.
pub run_review_intake_sound :
    (session : Session) (run : ReviewRun) (artifact : Value) (r : IntakeResult)
    → run_review_intake session run artifact ≡ ok r
    → InScope session run.tenant_id run.project_id
      × (r.review_run.status ≡ str (expected_status (needs_review artifact)))
      × (r.review_run.tenant_id ≡ run.tenant_id)
      × (r.review_run.project_id ≡ run.project_id)
unfolding run_review_intake run_deterministic_checks draft_findings classify_artifact
run_review_intake_sound session run artifact r h =
    let (scope, h1) = assert_scope-bind _ _ _ _ h in
    let made = ok-injective h1 in
    rw (← made) (
      scope,
      ap str (
          intake_status-drafts
            (classify_artifact (record run { status = str "intake_validated" }) artifact)
            (lacks_title artifact) (lacks_review artifact) (is_unapproved artifact)),
      refl,
      refl,
    )
