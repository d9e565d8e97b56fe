-- ===== src/Api/Collections/Table.antt =====
-- `collectionResources` of apps/api/src/handlers.js over the repository of
-- apps/api/src/repositories/memory.js. The audit events of the repository stand in `World`.
use xygo_aec.Base.{
  String, Bool, true, false, not, ◌&&◌, ◌||◌, List, [], ◌∷◌, map, Option, none, some, Result, ok,
  err, ◌===◌, if◌then◌else◌, Value, Fields, null, str, arr, nil, cons, obj, field, end, member,
  is_text, is_array, truthy, ◌or_else◌,
}
use xygo_aec.Contracts.{Project}
use xygo_aec.Repositories.{
  Repository, Item, project, issue, rfi, permit, review_session, ai_review_run, ai_finding,
  platform_blueprint, field_report, file_record,
}
use xygo_aec.Repositories.Memory.{
  list_projects_by_tenant, get_project_by_id, create_project, list_issues_by_tenant, create_issue,
  list_rfis_by_tenant, create_rfi, list_permit_packages_by_tenant, create_permit_package,
  list_review_sessions_by_tenant, create_review_session, list_ai_review_runs_by_tenant,
  get_ai_review_run_by_id, create_ai_review_run, list_ai_findings_by_tenant, create_ai_finding,
  list_platform_blueprints_by_tenant, create_platform_blueprint, list_field_reports_by_tenant,
  create_field_report, run_is_of,
}
use xygo_aec.Api.Collections.{Created, Resource}

-- Whether one of the members is missing: `!parsed?.a || !parsed?.b`.
abbrev pub lacks : Value → List String → Bool
lacks v [] = false
lacks v (k ∷ ks) = not (truthy (member v k)) || lacks v ks

abbrev pub refuse_if : Bool → String → Option String
refuse_if true message = some message
refuse_if false message = none

-- A lookup by a value: the ids of the repository are texts.
abbrev pub by_value : {A : Type 0} → (String → Option A) → Value → Option A
by_value look (str id) = look id
by_value look v = none

abbrev pub project_is_of : String → Option Project → Bool
project_is_of tenant_id none = false
project_is_of tenant_id (some p) = p.tenant_id === tenant_id

-- `!project || project.tenantId !== tenantId`
abbrev pub in_tenant_project : String → Value → String → Repository → Option String
in_tenant_project message parsed tenant_id r =
    refuse_if
      (not (project_is_of tenant_id (by_value (get_project_by_id r) (member parsed "projectId"))))
      message

-- `parsed.tenantId && parsed.tenantId !== tenantId`
abbrev pub names_other_tenant : Value → String → Bool
names_other_tenant parsed tenant_id =
    truthy (member parsed "tenantId") && not (is_text (member parsed "tenantId") tenant_id)

-- An object with the members.
abbrev pub object : List (String × Value) → Fields
object [] = end
object ((k, v) ∷ rest) = field k v (object rest)

abbrev no_values : Value
no_values = arr nil

-- `parsed.key ?? other`
abbrev given_or : Value → String → Value → String × Value
given_or parsed key other = (key, member parsed key or_else other)

abbrev given : Value → String → String × Value
given parsed key = (key, member parsed key)

abbrev pub written :
    {A : Type 0}
    → (A → Item)
    → (A → String)
    → Result (Repository × A)
    → Result (Repository × Created Item)
written tag id_of (err e) = err e
written tag id_of (ok (r, a)) = ok (r, record { id = id_of a; item = tag a })

-- What the audit event says of the record: the status, or the field that stands for it.
abbrev pub state_ref : Item → Value
state_ref (project p) = p.status
state_ref (issue i) = str i.status
state_ref (rfi i) = str i.status
state_ref (permit p) = str p.status
state_ref (review_session s) = s.status
state_ref (ai_review_run run) = run.status
state_ref (ai_finding f) = f.human_disposition
state_ref (platform_blueprint b) = str b.industry
state_ref (field_report f) = str f.status
state_ref (file_record f) = str f.status

-- The collections, by the segment of the path.
pub data Segment : Type 0 where
  projects issues rfis permits review_sessions ai_review_runs ai_findings platform_blueprints
        field_reports :
      Segment

abbrev pub validate_collection : Segment → Value → Option String
validate_collection projects parsed =
    refuse_if (lacks parsed ("id" ∷ "name" ∷ [])) "Project id and name are required."
validate_collection issues parsed =
    refuse_if (lacks parsed ("id" ∷ "projectId" ∷ "title" ∷ "description" ∷ []))
      "Issue id, projectId, title, and description are required."
validate_collection rfis parsed =
    refuse_if (lacks parsed ("id" ∷ "projectId" ∷ "title" ∷ []))
      "RFI id, projectId, and title are required."
validate_collection permits parsed =
    refuse_if (lacks parsed ("id" ∷ "projectId" ∷ "jurisdictionProfile" ∷ []))
      "Permit package id, projectId, and jurisdictionProfile are required."
validate_collection review_sessions parsed =
    refuse_if
      (lacks parsed ("id" ∷ "projectId" ∷ "createdBy" ∷ [])
        || not (is_array (member parsed "artifactRefs")))
      "Review session id, projectId, createdBy, and artifactRefs are required."
validate_collection ai_review_runs parsed =
    refuse_if (lacks parsed ("id" ∷ "projectId" ∷ "artifactType" ∷ "artifactId" ∷ []))
      "AI review run id, projectId, artifactType, and artifactId are required."
validate_collection ai_findings parsed =
    refuse_if (lacks parsed ("id" ∷ "reviewRunId" ∷ "category" ∷ "title" ∷ "description" ∷ []))
      "AI finding id, reviewRunId, category, title, and description are required."
validate_collection platform_blueprints parsed =
    refuse_if (lacks parsed ("id" ∷ "businessName" ∷ "industry" ∷ []))
      "Platform blueprint id, businessName, and industry are required."
validate_collection field_reports parsed =
    refuse_if (lacks parsed ("id" ∷ "projectId" ∷ "siteName" ∷ "reportType" ∷ "author" ∷ []))
      "Field report id, projectId, siteName, reportType, and author are required."

unfoldable pub guard_collection : Segment → Value → String → Repository → Option String
unfolding get_project_by_id get_ai_review_run_by_id
guard_collection projects parsed t r =
    refuse_if (names_other_tenant parsed t) "Cross-tenant project creation denied."
guard_collection issues parsed t r =
    in_tenant_project "Issue creation requires an in-tenant project." parsed t r
guard_collection rfis parsed t r =
    in_tenant_project "RFI creation requires an in-tenant project." parsed t r
guard_collection permits parsed t r =
    in_tenant_project "Permit package creation requires an in-tenant project." parsed t r
guard_collection review_sessions parsed t r =
    in_tenant_project "Review session creation requires an in-tenant project." parsed t r
guard_collection ai_review_runs parsed t r =
    in_tenant_project "AI review run creation requires an in-tenant project." parsed t r
guard_collection ai_findings parsed t r =
    refuse_if
      (not (run_is_of t (by_value (get_ai_review_run_by_id r) (member parsed "reviewRunId"))))
      "AI finding creation requires an in-tenant review run."
guard_collection platform_blueprints parsed t r =
    refuse_if (names_other_tenant parsed t) "Cross-tenant blueprint creation denied."
guard_collection field_reports parsed t r =
    if names_other_tenant parsed t
    then some "Cross-tenant field report creation denied."
    else in_tenant_project "Field report creation requires an in-tenant project." parsed t r

abbrev pub build_fields : Segment → Value → String → List (String × Value)
build_fields projects p t =
    given p "id"
    ∷ ("tenantId", str t)
    ∷ given p "name"
    ∷ given_or p "projectType" (str "commercial")
    ∷ given_or p "status" (str "draft")
    ∷ []
build_fields issues p t =
    given p "id"
    ∷ ("tenantId", str t)
    ∷ given p "projectId"
    ∷ given p "title"
    ∷ given p "description"
    ∷ given_or p "status" (str "open")
    ∷ given_or p "disciplines" (arr (cons (str "architecture") nil))
    ∷ given_or p "severity" (str "medium")
    ∷ given_or p "priority" (str "medium")
    ∷ []
build_fields rfis p t =
    given p "id"
    ∷ ("tenantId", str t)
    ∷ given p "projectId"
    ∷ given p "title"
    ∷ given_or p "question" (str "")
    ∷ given_or p "status" (str "draft")
    ∷ given_or p "relatedIssueIds" no_values
    ∷ given_or p "relatedSheetIds" no_values
    ∷ []
build_fields permits p t =
    given p "id"
    ∷ ("tenantId", str t)
    ∷ given p "projectId"
    ∷ given p "jurisdictionProfile"
    ∷ given_or p "status" (str "package_preparation")
    ∷ given_or p "submissionPackageRefs" no_values
    ∷ given_or p "requiredFormsChecklist" no_values
    ∷ given_or p "reviewComments" no_values
    ∷ given_or p "responseMatrix" no_values
    ∷ given_or p "permitReadinessFindings" no_values
    ∷ []
build_fields review_sessions p t =
    given p "id"
    ∷ ("tenantId", str t)
    ∷ given p "projectId"
    ∷ given p "createdBy"
    ∷ given p "artifactRefs"
    ∷ given_or p "status" (str "open")
    ∷ given_or p "commentIds" no_values
    ∷ []
build_fields ai_review_runs p t =
    given p "id"
    ∷ ("tenantId", str t)
    ∷ given p "projectId"
    ∷ given p "artifactType"
    ∷ given p "artifactId"
    ∷ given_or p "status" (str "queued")
    ∷ given_or p "ruleVersion" (str "rules-v1")
    ∷ given_or p "modelVersion" (str "model-sim-v1")
    ∷ given_or p "jurisdictionProfile" null
    ∷ []
build_fields ai_findings p t =
    given p "id"
    ∷ given p "reviewRunId"
    ∷ given p "category"
    ∷ given p "title"
    ∷ given p "description"
    ∷ given_or p "severity" (str "medium")
    ∷ given_or p "confidence" (str "medium")
    ∷ given_or p "evidenceType" (str "hybrid")
    ∷ given_or p "evidenceReferences" no_values
    ∷ given_or p "referencedStandard" null
    ∷ given_or p "jurisdictionProfile" null
    ∷ given_or p "assumptions" no_values
    ∷ given_or p "missingInformation" no_values
    ∷ given_or p "suggestedNextAction" (str "Requires qualified review")
    ∷ given_or p "assignedDiscipline" null
    ∷ given_or p "humanDisposition" (str "pending")
    ∷ []
build_fields platform_blueprints p t =
    given p "id"
    ∷ ("tenantId", str t)
    ∷ given p "businessName"
    ∷ given p "industry"
    ∷ given_or p "serviceLine" null
    ∷ given_or p "roles" no_values
    ∷ given_or p "workflows" no_values
    ∷ given_or p "painPoints" no_values
    ∷ given_or p "portalRequirements" no_values
    ∷ given_or p "dashboardRequirements" no_values
    ∷ given_or p "aiAgentRequirements" no_values
    ∷ given_or p "documentReportingNeeds" no_values
    ∷ given_or p "integrationNeeds" no_values
    ∷ given_or p "selectedModules" no_values
    ∷ []
build_fields field_reports p t =
    given p "id"
    ∷ ("tenantId", str t)
    ∷ given p "projectId"
    ∷ given p "siteName"
    ∷ given p "reportType"
    ∷ given p "author"
    ∷ given_or p "capturedAt" null
    ∷ given_or p "observations" no_values
    ∷ []

abbrev pub build_collection : Segment → Value → String → Value
build_collection s parsed tenant_id = obj (object (build_fields s parsed tenant_id))

unfoldable pub create_in_collection :
    Segment → Repository → Value → Result (Repository × Created Item)
unfolding create_project create_issue create_rfi create_permit_package create_review_session
    create_ai_review_run create_ai_finding create_platform_blueprint create_field_report
create_in_collection projects r v = written project (λ p. p.id) (create_project r v)
create_in_collection issues r v = written issue (λ i. i.id) (create_issue r v)
create_in_collection rfis r v = written rfi (λ i. i.id) (create_rfi r v)
create_in_collection permits r v = written permit (λ p. p.id) (create_permit_package r v)
create_in_collection review_sessions r v =
    written review_session (λ s. s.id) (create_review_session r v)
create_in_collection ai_review_runs r v =
    written ai_review_run (λ run. run.id) (create_ai_review_run r v)
create_in_collection ai_findings r v = written ai_finding (λ f. f.id) (create_ai_finding r v)
create_in_collection platform_blueprints r v =
    written platform_blueprint (λ b. b.id) (create_platform_blueprint r v)
create_in_collection field_reports r v = written field_report (λ f. f.id) (create_field_report r v)

unfoldable pub list_collection : Segment → Repository → String → List Item
unfolding list_projects_by_tenant list_issues_by_tenant list_rfis_by_tenant
    list_permit_packages_by_tenant list_review_sessions_by_tenant list_ai_review_runs_by_tenant
    list_ai_findings_by_tenant list_platform_blueprints_by_tenant list_field_reports_by_tenant
list_collection projects r t = map project (list_projects_by_tenant r t)
list_collection issues r t = map issue (list_issues_by_tenant r t)
list_collection rfis r t = map rfi (list_rfis_by_tenant r t)
list_collection permits r t = map permit (list_permit_packages_by_tenant r t)
list_collection review_sessions r t = map review_session (list_review_sessions_by_tenant r t)
list_collection ai_review_runs r t = map ai_review_run (list_ai_review_runs_by_tenant r t)
list_collection ai_findings r t = map ai_finding (list_ai_findings_by_tenant r t)
list_collection platform_blueprints r t =
    map platform_blueprint (list_platform_blueprints_by_tenant r t)
list_collection field_reports r t = map field_report (list_field_reports_by_tenant r t)

abbrev pub action_name : Segment → String
action_name projects = "api.project.created"
action_name issues = "api.issue.created"
action_name rfis = "api.rfi.created"
action_name permits = "api.permit_package.created"
action_name review_sessions = "api.review_session.created"
action_name ai_review_runs = "api.ai_review_run.created"
action_name ai_findings = "api.ai_finding.created"
action_name platform_blueprints = "api.platform_blueprint.created"
action_name field_reports = "api.field_report.created"

abbrev pub type_name : Segment → String
type_name projects = "project"
type_name issues = "coordination_issue"
type_name rfis = "rfi"
type_name permits = "permit_package"
type_name review_sessions = "review_session"
type_name ai_review_runs = "ai_review_run"
type_name ai_findings = "ai_finding"
type_name platform_blueprints = "platform_blueprint"
type_name field_reports = "field_report"

-- The entry of the table.
abbrev pub collection_resource : Segment → Resource Repository Item
collection_resource s = record {
  list = list_collection s;
  validate = validate_collection s;
  guard = guard_collection s;
  build = build_collection s;
  create = create_in_collection s;
  action = action_name s;
  resource_type = type_name s;
  after_state_ref = λ c. state_ref c.item;
}
