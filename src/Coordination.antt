-- ===== src/Coordination.antt =====
-- packages/coordination/src/index.js: coordination issues, BCF topics, requests for information and
-- approval requests.
pub mod Approving
use xygo_aec.Base.{
  String, Bool, true, not, List, [], ◌∷◌, Option, none, some, Result, ok, ◌>>=◌, ◌>>◌, throw_if,
  includes, ◌⧺◌, Value, null, str, arr, nil, member, ◌or_else◌, required_string, required_array,
}
use xygo_aec.Access.{Session, assert_scope}
use xygo_aec.Audit.{Crypto, Ambient}
use xygo_aec.Emission.{user_event, aggregate_event, Emitted, emit}

abbrev pub issue_statuses : List String
issue_statuses =
    "open" ∷ "triaged" ∷ "assigned" ∷ "in_progress" ∷ "under_review" ∷ "resolved" ∷ "closed"
    ∷ "returned" ∷ "deferred" ∷ "rejected_false_positive" ∷ []

abbrev pub rfi_statuses : List String
rfi_statuses = "draft" ∷ "submitted" ∷ "answered" ∷ "closed" ∷ "returned" ∷ []

abbrev pub approval_statuses : List String
approval_statuses = "pending" ∷ "approved" ∷ "rejected" ∷ "needs_revision" ∷ []

-- `disciplines` is stored as it was given: `undefined` where the input has none.
pub record Issue : Type 0 where
  pub id : String
  pub tenant_id : String
  pub project_id : String
  pub title : String
  pub description : String
  pub status : String
  pub issue_type : Value
  pub source : Value
  pub disciplines : Value
  pub assigned_lead_user_id : Value
  pub priority : Value
  pub severity : Value
  pub confidence : Value
  pub related_sheet_ids : Value
  pub related_model_ids : Value
  pub related_element_ids : Value
  pub evidence : Value
  pub proposed_resolution : Value
  pub staged : Bool

unfoldable pub create_coordination_issue : Value → Result Issue
create_coordination_issue input = do
  id ← required_string (member input "id") "Coordination issue id"
  tenant_id ← required_string (member input "tenantId") "Coordination issue tenantId"
  project_id ← required_string (member input "projectId") "Coordination issue projectId"
  title ← required_string (member input "title") "Coordination issue title"
  description ← required_string (member input "description") "Coordination issue description"
  status ← required_string (member input "status") "Coordination issue status"
  required_array (member input "disciplines" or_else arr nil) "Coordination issue disciplines"
  throw_if (not (includes issue_statuses status)) ("Unknown coordination issue status: " ⧺ status)
  ok (record {
    id = id;
    tenant_id = tenant_id;
    project_id = project_id;
    title = title;
    description = description;
    status = status;
    issue_type = member input "type" or_else str "coordination_conflict";
    source = member input "source" or_else str "manual";
    disciplines = member input "disciplines";
    assigned_lead_user_id = member input "assignedLeadUserId" or_else null;
    priority = member input "priority" or_else str "medium";
    severity = member input "severity" or_else str "medium";
    confidence = member input "confidence" or_else str "confirmed";
    related_sheet_ids = member input "relatedSheetIds" or_else arr nil;
    related_model_ids = member input "relatedModelIds" or_else arr nil;
    related_element_ids = member input "relatedElementIds" or_else arr nil;
    evidence = member input "evidence" or_else arr nil;
    proposed_resolution = member input "proposedResolution" or_else null;
    staged = true;
  })

pub record BcfTopic : Type 0 where
  pub id : String
  pub tenant_id : String
  pub project_id : String
  pub issue_id : String
  pub topic : String
  pub viewpoint : Value
  pub camera : Value
  pub selected_elements : Value
  pub snapshot_ref : Value
  pub comments : Value
  pub priority : Value
  pub staged : Bool

pub create_bcf_topic : Value → Result BcfTopic
create_bcf_topic input = do
  id ← required_string (member input "id") "BCF topic id"
  tenant_id ← required_string (member input "tenantId") "BCF topic tenantId"
  project_id ← required_string (member input "projectId") "BCF topic projectId"
  issue_id ← required_string (member input "issueId") "BCF topic issueId"
  topic ← required_string (member input "topic") "BCF topic title"
  ok (record {
    id = id;
    tenant_id = tenant_id;
    project_id = project_id;
    issue_id = issue_id;
    topic = topic;
    viewpoint = member input "viewpoint" or_else null;
    camera = member input "camera" or_else null;
    selected_elements = member input "selectedElements" or_else arr nil;
    snapshot_ref = member input "snapshotRef" or_else null;
    comments = member input "comments" or_else arr nil;
    priority = member input "priority" or_else str "medium";
    staged = true;
  })

pub record Rfi : Type 0 where
  pub id : String
  pub tenant_id : String
  pub project_id : String
  pub title : String
  pub question : Value
  pub requested_by : Value
  pub assigned_to : Value
  pub status : String
  pub related_sheet_ids : Value
  pub related_issue_ids : Value
  pub staged : Bool

unfoldable pub create_rfi : Value → Result Rfi
create_rfi input = do
  id ← required_string (member input "id") "RFI id"
  tenant_id ← required_string (member input "tenantId") "RFI tenantId"
  project_id ← required_string (member input "projectId") "RFI projectId"
  title ← required_string (member input "title") "RFI title"
  status ← required_string (member input "status") "RFI status"
  throw_if (not (includes rfi_statuses status)) ("Unknown RFI status: " ⧺ status)
  ok (record {
    id = id;
    tenant_id = tenant_id;
    project_id = project_id;
    title = title;
    question = member input "question" or_else str "";
    requested_by = member input "requestedBy" or_else null;
    assigned_to = member input "assignedTo" or_else null;
    status = status;
    related_sheet_ids = member input "relatedSheetIds" or_else arr nil;
    related_issue_ids = member input "relatedIssueIds" or_else arr nil;
    staged = true;
  })

pub record ApprovalRequest : Type 0 where
  pub id : String
  pub tenant_id : String
  pub project_id : String
  pub approval_type : String
  pub status : String
  pub requested_by : Value
  pub reviewer_role : Value
  pub artifact_refs : Value
  pub staged : Bool

pub create_approval_request : Value → Result ApprovalRequest
create_approval_request input = do
  id ← required_string (member input "id") "Approval request id"
  tenant_id ← required_string (member input "tenantId") "Approval request tenantId"
  project_id ← required_string (member input "projectId") "Approval request projectId"
  approval_type ← required_string (member input "approvalType") "Approval request approvalType"
  status ← required_string (member input "status") "Approval request status"
  throw_if (not (includes approval_statuses status)) ("Unknown approval status: " ⧺ status)
  ok (record {
    id = id;
    tenant_id = tenant_id;
    project_id = project_id;
    approval_type = approval_type;
    status = status;
    requested_by = member input "requestedBy" or_else null;
    reviewer_role = member input "reviewerRole" or_else str "approver";
    artifact_refs = member input "artifactRefs" or_else arr nil;
    staged = true;
  })

unfoldable pub update_approval_status : Session → ApprovalRequest → String → Result ApprovalRequest
update_approval_status session request next = do
  assert_scope session request.tenant_id request.project_id
  throw_if (not (includes approval_statuses next)) ("Unknown approval status: " ⧺ next)
  ok (record request { status = next })

-- What `emitCoordinationAudit` reads of a resource; no type stands for `coordination_resource`.
pub record Coordinated : Type 0 where
  pub id : String
  pub tenant_id : String
  pub resource_type : Option String

abbrev pub resource_type_of : Coordinated → String
resource_type_of r = elim r.resource_type [ none ↦ "coordination_resource" | some t ↦ t ]

unfoldable pub emit_coordination_audit :
    Crypto → Ambient → Session → Coordinated → String → Value → Result Emitted
emit_coordination_audit c a session resource action payload =
    emit c a
      (user_event resource.tenant_id session.user_id action (resource_type_of resource) resource.id)
      (aggregate_event action (resource_type_of resource) resource.id resource.tenant_id payload)
