-- ===== src/Projects.antt =====
-- packages/projects/src/index.js: discipline packages, review sessions and comments, and the
-- lifecycle of a project.
pub mod Lifecycle
pub mod Approvals
use xygo_aec.Base.{
  String, Bool, true, false, not, ◌&&◌, ◌||◌, List, [], ◌∷◌, Result, ok, ◌>>=◌, ◌>>◌, throw_if,
  includes, ◌⧺◌, ◌===◌, if◌then◌else◌, Value, undefined, null, str, arr, nil, obj, field, end,
  member, is_true, is_text, set_has, shown, ◌or_else◌, required_string, required_array,
}
use xygo_aec.Transitions.{Table, targets}
use xygo_aec.Contracts.{Project}
use xygo_aec.Access.{Session, assert_scope}
use xygo_aec.Audit.{Crypto, Ambient, AuditInput, AuditEvent, OutboxEvent}
use xygo_aec.Emission.{transition_event, aggregate_event, Emitted, emit, texts}

abbrev pub disciplines : List String
disciplines =
    "architecture" ∷ "structural" ∷ "foundation" ∷ "framing" ∷ "plumbing" ∷ "electrical"
    ∷ "mechanical_hvac" ∷ "interior_design" ∷ "landscape" ∷ "civil_site"
    ∷ "construction_coordination" ∷ "permitting_code_review" ∷ []

abbrev pub lifecycle_states : List String
lifecycle_states =
    "draft" ∷ "internal_review" ∷ "coordination_review" ∷ "returned_for_revision"
    ∷ "approved_for_permit" ∷ "approved_for_pricing" ∷ "approved_for_construction"
    ∷ "field_revision" ∷ "as_built" ∷ "superseded" ∷ "archived" ∷ []

abbrev pub allowed_transitions : Table
allowed_transitions =
    ("draft", "internal_review" ∷ [])
    ∷ ("internal_review", "coordination_review" ∷ "returned_for_revision" ∷ [])
    ∷ (
      "coordination_review",
      "returned_for_revision" ∷ "approved_for_permit" ∷ "approved_for_pricing" ∷ [],
    )
    ∷ ("returned_for_revision", "internal_review" ∷ [])
    ∷ ("approved_for_permit", "approved_for_construction" ∷ "field_revision" ∷ [])
    ∷ ("approved_for_pricing", "approved_for_construction" ∷ [])
    ∷ ("approved_for_construction", "field_revision" ∷ "as_built" ∷ [])
    ∷ ("field_revision", "approved_for_construction" ∷ "as_built" ∷ [])
    ∷ ("as_built", "archived" ∷ [])
    ∷ ("superseded", [])
    ∷ ("archived", [])
    ∷ []

pub record DisciplinePackage : Type 0 where
  pub id : String
  pub tenant_id : String
  pub project_id : String
  pub discipline : String
  pub lead_user_id : String
  pub member_user_ids : Value
  pub scope : Value
  pub deliverables : Value
  pub dependencies : Value
  pub drawing_ids : Value
  pub model_ids : Value
  pub review_gate : Value
  pub completion_status : Value
  pub staged : Bool

pub create_discipline_package : Value → Result DisciplinePackage
create_discipline_package input = do
  id ← required_string (member input "id") "Discipline package id"
  tenant_id ← required_string (member input "tenantId") "Discipline package tenantId"
  project_id ← required_string (member input "projectId") "Discipline package projectId"
  discipline ← required_string (member input "discipline") "Discipline package discipline"
  lead_user_id ← required_string (member input "leadUserId") "Discipline package leadUserId"
  required_array (member input "memberUserIds" or_else arr nil) "Discipline package memberUserIds"
  throw_if (not (includes disciplines discipline)) ("Unknown discipline: " ⧺ discipline)
  throw_if (not (is_true (member input "staged")))
      "Discipline packages must be staged synthetic records."
  ok (record {
    id = id;
    tenant_id = tenant_id;
    project_id = project_id;
    discipline = discipline;
    lead_user_id = lead_user_id;
    member_user_ids = member input "memberUserIds";
    scope = member input "scope" or_else str "";
    deliverables = member input "deliverables" or_else arr nil;
    dependencies = member input "dependencies" or_else arr nil;
    drawing_ids = member input "drawingIds" or_else arr nil;
    model_ids = member input "modelIds" or_else arr nil;
    review_gate = member input "reviewGate" or_else str "internal_review";
    completion_status = member input "completionStatus" or_else str "not_started";
    staged = true;
  })

pub record ReviewSession : Type 0 where
  pub id : String
  pub tenant_id : String
  pub project_id : String
  pub created_by : String
  pub artifact_refs : Value
  pub status : Value
  pub comment_ids : Value
  pub staged : Bool

unfoldable pub create_review_session : Value → Result ReviewSession
create_review_session input = do
  id ← required_string (member input "id") "Review session id"
  tenant_id ← required_string (member input "tenantId") "Review session tenantId"
  project_id ← required_string (member input "projectId") "Review session projectId"
  created_by ← required_string (member input "createdBy") "Review session createdBy"
  required_array (member input "artifactRefs" or_else arr nil) "Review session artifactRefs"
  throw_if (not (is_true (member input "staged")))
      "Review sessions must be staged synthetic records."
  ok (record {
    id = id;
    tenant_id = tenant_id;
    project_id = project_id;
    created_by = created_by;
    artifact_refs = member input "artifactRefs";
    status = member input "status" or_else str "open";
    comment_ids = member input "commentIds" or_else arr nil;
    staged = true;
  })

pub record ReviewComment : Type 0 where
  pub id : String
  pub tenant_id : String
  pub review_session_id : String
  pub author_user_id : String
  pub body : String
  pub markup_ref : Value
  pub due_date : Value
  pub staged : Bool

pub create_review_comment : Value → Result ReviewComment
create_review_comment input = do
  id ← required_string (member input "id") "Review comment id"
  tenant_id ← required_string (member input "tenantId") "Review comment tenantId"
  review_session_id ←
      required_string (member input "reviewSessionId") "Review comment reviewSessionId"
  author_user_id ← required_string (member input "authorUserId") "Review comment authorUserId"
  body ← required_string (member input "body") "Review comment body"
  ok (record {
    id = id;
    tenant_id = tenant_id;
    review_session_id = review_session_id;
    author_user_id = author_user_id;
    body = body;
    markup_ref = member input "markupRef" or_else null;
    due_date = member input "dueDate" or_else null;
    staged = true;
  })

pub record TransitionInput : Type 0 where
  pub from_state : String
  pub to_state : String
  pub required_artifact_refs : List String
  pub blocking_issue_ids : List String
  pub correlation_id : Value

pub record Transitioned : Type 0 where
  pub project : Project
  pub audit_event : AuditEvent
  pub outbox_event : OutboxEvent

abbrev pub is_empty {ℓ} : {A : Type ℓ} → List A → Bool
is_empty [] = true
is_empty (x ∷ xs) = false

-- The states that need artifacts and no blocking issues.
abbrev pub gated_states : List String
gated_states = "approved_for_permit" ∷ "approved_for_construction" ∷ []

-- The checks of `transitionLifecycle` below its two guards on the session.
unfoldable pub check_transition : Project → TransitionInput → Result (Unit {0})
check_transition project t = do
  throw_if
      (not (includes lifecycle_states t.from_state) || not (includes lifecycle_states t.to_state))
      "Unknown lifecycle state transition."
  throw_if (not (is_text project.status t.from_state))
      "Project lifecycle transition rejected: stale fromState."
  throw_if (not (includes (targets allowed_transitions t.from_state) t.to_state))
      ("Project lifecycle transition rejected: " ⧺ t.from_state ⧺ " -> " ⧺ t.to_state)
  throw_if (not (is_empty t.blocking_issue_ids) && includes gated_states t.to_state)
      "Project lifecycle transition rejected: blocking issues remain."
  throw_if (is_empty t.required_artifact_refs && includes gated_states t.to_state)
      "Project lifecycle transition rejected: required artifacts missing."

abbrev pub transition_audit : Session → Project → TransitionInput → AuditInput
transition_audit session project t =
    transition_event project.tenant_id session.user_id "project.lifecycle.transitioned" "project"
      project.id (str t.from_state) (str t.to_state) t.correlation_id

abbrev transition_payload : TransitionInput → Value
transition_payload t = obj (
    field "fromState" (str t.from_state) (
      field "toState" (str t.to_state)
        (field "requiredArtifactRefs" (texts t.required_artifact_refs) end)))

unfoldable pub transition_lifecycle :
    Crypto → Ambient → Session → Project → TransitionInput → Result Transitioned
transition_lifecycle c a session project t = do
  assert_scope session project.tenant_id project.id
  check_transition project t
  events ← emit c a (transition_audit session project t) (
      aggregate_event "project.lifecycle.transitioned" "project" project.id project.tenant_id
        (transition_payload t))
  ok (record {
    project = record project { status = str t.to_state };
    audit_event = events.audit_event;
    outbox_event = events.outbox_event;
  })
