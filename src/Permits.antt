-- ===== src/Permits.antt =====
-- packages/permits/src/index.js: permit packages and their lifecycle.
pub mod Lifecycle
pub mod Cycles
use xygo_aec.Base.{
  ℕ, ◌+◌, String, Bool, true, false, not, ◌&&◌, ◌||◌, List, [], ◌∷◌, Result, ok, ◌>>=◌, ◌>>◌,
  throw_if, includes, ◌⧺◌, ◌===◌, any, if◌then◌else◌, Value, Values, nil, cons, undefined, null,
  num, bool, str, arr, obj, field, end, member, ◌or_else◌, required_string,
}
use xygo_aec.Transitions.{Table, targets}
use xygo_aec.Access.{Session, assert_scope}
use xygo_aec.Audit.{Crypto, Ambient, AuditEvent, OutboxEvent}
use xygo_aec.Emission.{transition_event, aggregate_event, emit, one_field}

abbrev pub permit_states : List String
permit_states =
    "package_preparation" ∷ "internal_completeness_review" ∷ "ready_for_submission"
    ∷ "simulated_submitted" ∷ "reviewer_comments_received" ∷ "revision_required"
    ∷ "revision_in_progress" ∷ "simulated_resubmitted" ∷ "simulated_approved" ∷ "closed" ∷ []

abbrev pub allowed_permit_transitions : Table
allowed_permit_transitions =
    ("package_preparation", "internal_completeness_review" ∷ [])
    ∷ ("internal_completeness_review", "ready_for_submission" ∷ "revision_required" ∷ [])
    ∷ ("ready_for_submission", "simulated_submitted" ∷ [])
    ∷ ("simulated_submitted", "reviewer_comments_received" ∷ "simulated_approved" ∷ [])
    ∷ ("reviewer_comments_received", "revision_required" ∷ "simulated_approved" ∷ [])
    ∷ ("revision_required", "revision_in_progress" ∷ [])
    ∷ ("revision_in_progress", "simulated_resubmitted" ∷ [])
    ∷ ("simulated_resubmitted", "reviewer_comments_received" ∷ "simulated_approved" ∷ [])
    ∷ ("simulated_approved", "closed" ∷ [])
    ∷ ("closed", [])
    ∷ []

-- The lists of a package are lists here; `createPermitPackage` keeps whatever it is given for them.
pub record PermitPackage : Type 0 where
  pub id : String
  pub tenant_id : String
  pub project_id : String
  pub jurisdiction_profile : String
  pub status : String
  pub submission_package_refs : List Value
  pub required_forms_checklist : List Value
  pub review_comments : List Value
  pub response_matrix : Value
  pub submission_cycles : ℕ
  pub permit_readiness_findings : Value
  pub staged : Bool

-- The argument of `createPermitPackage`; a list or a number left out is empty or zero.
pub record PermitInput : Type 0 where
  pub fields : Value
  pub submission_package_refs : List Value
  pub required_forms_checklist : List Value
  pub review_comments : List Value
  pub submission_cycles : ℕ

unfoldable pub create_permit_package : PermitInput → Result PermitPackage
create_permit_package input = do
  id ← required_string (member input.fields "id") "Permit package id"
  tenant_id ← required_string (member input.fields "tenantId") "Permit package tenantId"
  project_id ← required_string (member input.fields "projectId") "Permit package projectId"
  jurisdiction_profile ←
      required_string (member input.fields "jurisdictionProfile")
        "Permit package jurisdictionProfile"
  status ← required_string (member input.fields "status") "Permit package status"
  throw_if (not (includes permit_states status)) ("Unknown permit status: " ⧺ status)
  ok (record {
    id = id;
    tenant_id = tenant_id;
    project_id = project_id;
    jurisdiction_profile = jurisdiction_profile;
    status = status;
    submission_package_refs = input.submission_package_refs;
    required_forms_checklist = input.required_forms_checklist;
    review_comments = input.review_comments;
    response_matrix = member input.fields "responseMatrix" or_else arr nil;
    submission_cycles = input.submission_cycles;
    permit_readiness_findings = member input.fields "permitReadinessFindings" or_else arr nil;
    staged = true;
  })

-- `value === false`
abbrev pub is_false : Value → Bool
is_false (bool b) = not b
is_false _ = false

abbrev pub is_empty {ℓ} : {A : Type ℓ} → List A → Bool
is_empty [] = true
is_empty (x ∷ xs) = false

unfoldable pub check_permit : PermitPackage → String → List Value → Result (Unit {0})
check_permit p next comments = do
  throw_if (not (includes permit_states next)) ("Unknown permit status: " ⧺ next)
  throw_if (not (includes (targets allowed_permit_transitions p.status) next))
      ("Permit lifecycle transition rejected: " ⧺ p.status ⧺ " -> " ⧺ next)
  throw_if ((next === "ready_for_submission") && any is_false p.required_forms_checklist)
      "Permit lifecycle transition rejected: required forms incomplete."
  throw_if ((next === "simulated_submitted") && is_empty p.submission_package_refs)
      "Permit lifecycle transition rejected: submission package missing."
  throw_if ((next === "reviewer_comments_received") && is_empty comments)
      "Permit lifecycle transition rejected: review comments are required."

abbrev pub is_submission : String → Bool
is_submission next = (next === "simulated_submitted") || (next === "simulated_resubmitted")

-- `updated`
unfoldable pub moved_permit : PermitPackage → String → List Value → PermitPackage
moved_permit p next comments = record p {
  status = next;
  review_comments = if is_empty comments then p.review_comments else comments;
  submission_cycles = if is_submission next then p.submission_cycles + 1 else p.submission_cycles;
}

pub record PermitMoved : Type 0 where
  pub permit_package : PermitPackage
  pub audit_event : AuditEvent
  pub outbox_event : OutboxEvent

unfoldable pub transition_permit_package :
    Crypto → Ambient → Session → PermitPackage → String → List Value → Result PermitMoved
transition_permit_package c a session p next comments = do
  assert_scope session p.tenant_id p.project_id
  check_permit p next comments
  events ←
      emit c a
        (transition_event p.tenant_id session.user_id "permit.lifecycle.transitioned"
          "permit_package" p.id (str p.status) (str next) undefined)
        (aggregate_event "permit.lifecycle.transitioned" "permit_package" p.id p.tenant_id
          (one_field "nextStatus" next))
  ok (record {
    permit_package = moved_permit p next comments;
    audit_event = events.audit_event;
    outbox_event = events.outbox_event;
  })
