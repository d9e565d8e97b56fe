-- ===== src/Repositories/Memory.antt =====
-- The operations of apps/api/src/repositories/memory.js on projects and what belongs to them, and on the
-- audit events.
use xygo_aec.Base.{
  ℕ, String, Bool, true, false, List, [], ◌∷◌, ◌++◌, Option, none, some, Result, ok, throw, ◌>>=◌,
  ◌===◌, keep, if◌then◌else◌, Value, Values, nil, cons, bool, num, obj, field, end, member, is_text,
}
use xygo_aec.Contracts
use xygo_aec.Contracts.{Project}
use xygo_aec.Coordination
use xygo_aec.Coordination.{Issue, Rfi, create_coordination_issue}
use xygo_aec.Permits
use xygo_aec.Permits.{PermitPackage, PermitInput}
use xygo_aec.Projects
use xygo_aec.Projects.{ReviewSession}
use xygo_aec.AiReview.{ReviewRun, Finding, create_review_run, create_finding, set_human_disposition}
use xygo_aec.Blueprints.{Blueprint, generate_platform_blueprint, to_array}
use xygo_aec.FieldReporting
use xygo_aec.FieldReporting.{FieldReport}
use xygo_aec.Audit.{AuditEvent}
use xygo_aec.Repositories.{Repository}
use xygo_aec.Repositories.Maps.{get, has, set, values}

-- `{ ...input, staged: true }`, for what is read of it.
abbrev pub as_staged : Value → Value
as_staged (obj fs) = obj (field "staged" (bool true) fs)
as_staged _ = obj (field "staged" (bool true) end)

-- `if (store.has(key)) throw new Error(message); store.set(key, value)`
unfoldable pub insert_new :
    {A : Type 0} → String → String → A → List (String × A) → Result (List (String × A))
insert_new message key a entries = if has key entries then throw message else ok (set key a entries)

unfoldable pub list_projects_by_tenant : Repository → String → List Project
list_projects_by_tenant r tenant_id = keep (λ p. p.tenant_id === tenant_id) (values r.projects)

unfoldable pub get_project_by_id : Repository → String → Option Project
get_project_by_id r id = get id r.projects

unfoldable pub create_project : Repository → Value → Result (Repository × Project)
create_project r input = do
  made ← Contracts.create_project (as_staged input)
  projects ← insert_new "Project id already exists." made.id made r.projects
  ok (record r { projects = projects }, made)

unfoldable pub list_issues_by_tenant : Repository → String → List Issue
list_issues_by_tenant r tenant_id = keep (λ i. i.tenant_id === tenant_id) (values r.issues)

unfoldable pub list_issues_by_project : Repository → String → List Issue
list_issues_by_project r project_id = keep (λ i. i.project_id === project_id) (values r.issues)

unfoldable pub create_issue : Repository → Value → Result (Repository × Issue)
create_issue r input = do
  made ← create_coordination_issue (as_staged input)
  issues ← insert_new "Coordination issue id already exists." made.id made r.issues
  ok (record r { issues = issues }, made)

unfoldable pub list_rfis_by_tenant : Repository → String → List Rfi
list_rfis_by_tenant r tenant_id = keep (λ i. i.tenant_id === tenant_id) (values r.rfis)

unfoldable pub create_rfi : Repository → Value → Result (Repository × Rfi)
create_rfi r input = do
  made ← Coordination.create_rfi (as_staged input)
  rfis ← insert_new "RFI id already exists." made.id made r.rfis
  ok (record r { rfis = rfis }, made)

unfoldable pub list_permit_packages_by_tenant : Repository → String → List PermitPackage
list_permit_packages_by_tenant r tenant_id =
    keep (λ p. p.tenant_id === tenant_id) (values r.permits)

abbrev value_list : Values → List Value
value_list nil = []
value_list (cons v vs) = v ∷ value_list vs

abbrev number_or_zero : Value → ℕ
number_or_zero (num n) = n
number_or_zero _ = 0

-- The argument of `createPermitPackage`, with its lists.
abbrev pub permit_input : Value → PermitInput
permit_input v = record {
  fields = v;
  submission_package_refs = value_list (to_array (member v "submissionPackageRefs"));
  required_forms_checklist = value_list (to_array (member v "requiredFormsChecklist"));
  review_comments = value_list (to_array (member v "reviewComments"));
  submission_cycles = number_or_zero (member v "submissionCycles");
}

unfoldable pub create_permit_package : Repository → Value → Result (Repository × PermitPackage)
create_permit_package r input = do
  made ← Permits.create_permit_package (permit_input (as_staged input))
  permits ← insert_new "Permit package id already exists." made.id made r.permits
  ok (record r { permits = permits }, made)

unfoldable pub list_review_sessions_by_tenant : Repository → String → List ReviewSession
list_review_sessions_by_tenant r tenant_id =
    keep (λ s. s.tenant_id === tenant_id) (values r.review_sessions)

unfoldable pub create_review_session : Repository → Value → Result (Repository × ReviewSession)
create_review_session r input = do
  made ← Projects.create_review_session (as_staged input)
  review_sessions ← insert_new "Review session id already exists." made.id made r.review_sessions
  ok (record r { review_sessions = review_sessions }, made)

unfoldable pub list_ai_review_runs_by_tenant : Repository → String → List ReviewRun
list_ai_review_runs_by_tenant r tenant_id =
    keep (λ run. run.tenant_id === tenant_id) (values r.ai_review_runs)

unfoldable pub get_ai_review_run_by_id : Repository → String → Option ReviewRun
get_ai_review_run_by_id r id = get id r.ai_review_runs

unfoldable pub create_ai_review_run : Repository → Value → Result (Repository × ReviewRun)
create_ai_review_run r input = do
  made ← create_review_run (as_staged input)
  ai_review_runs ← insert_new "AI review run id already exists." made.id made r.ai_review_runs
  ok (record r { ai_review_runs = ai_review_runs }, made)

-- `run?.tenantId === tenantId`
abbrev pub run_is_of : String → Option ReviewRun → Bool
run_is_of tenant_id none = false
run_is_of tenant_id (some run) = run.tenant_id === tenant_id

-- A finding is of the tenant of its review run.
unfoldable pub list_ai_findings_by_tenant : Repository → String → List Finding
list_ai_findings_by_tenant r tenant_id =
    keep (λ f. run_is_of tenant_id (get f.review_run_id r.ai_review_runs)) (values r.ai_findings)

unfoldable pub get_ai_finding_by_id : Repository → String → Option Finding
get_ai_finding_by_id r id = get id r.ai_findings

unfoldable pub create_ai_finding : Repository → Value → Result (Repository × Finding)
create_ai_finding r input = do
  made ← create_finding (as_staged input)
  ai_findings ← insert_new "AI finding id already exists." made.id made r.ai_findings
  ok (record r { ai_findings = ai_findings }, made)

-- What was found under an id, or an exception.
abbrev pub found_or : {A : Type 0} → String → Option A → Result A
found_or message none = throw message
found_or message (some a) = ok a

-- A related issue left out is null.
unfoldable pub set_ai_finding_disposition :
    Repository → String → String → Value → Result (Repository × Finding)
set_ai_finding_disposition r finding_id next related_issue_id = do
  finding ← found_or "AI finding not found." (get finding_id r.ai_findings)
  updated ← set_human_disposition finding next related_issue_id
  ok (record r { ai_findings = set finding_id updated r.ai_findings }, updated)

unfoldable pub list_platform_blueprints_by_tenant : Repository → String → List Blueprint
list_platform_blueprints_by_tenant r tenant_id =
    keep (λ b. b.tenant_id === tenant_id) (values r.platform_blueprints)

unfoldable pub get_platform_blueprint_by_id : Repository → String → Option Blueprint
get_platform_blueprint_by_id r id = get id r.platform_blueprints

unfoldable pub create_platform_blueprint : Repository → Value → Result (Repository × Blueprint)
create_platform_blueprint r input = do
  made ← generate_platform_blueprint (as_staged input)
  platform_blueprints ←
      insert_new "Platform blueprint id already exists." made.id made r.platform_blueprints
  ok (record r { platform_blueprints = platform_blueprints }, made)

unfoldable pub list_field_reports_by_tenant : Repository → String → List FieldReport
list_field_reports_by_tenant r tenant_id =
    keep (λ f. f.tenant_id === tenant_id) (values r.field_reports)

unfoldable pub get_field_report_by_id : Repository → String → Option FieldReport
get_field_report_by_id r id = get id r.field_reports

unfoldable pub create_field_report : Repository → Value → Result (Repository × FieldReport)
create_field_report r input = do
  made ← FieldReporting.create_field_report (as_staged input)
  field_reports ← insert_new "Field report id already exists." made.id made r.field_reports
  ok (record r { field_reports = field_reports }, made)

unfoldable pub save_field_report : Repository → FieldReport → Repository × FieldReport
save_field_report r report =
    (record r { field_reports = set report.id report r.field_reports }, report)

unfoldable pub list_audit_events_by_tenant : Repository → String → List AuditEvent
list_audit_events_by_tenant r tenant_id = keep (λ e. is_text e.tenant_id tenant_id) r.audit_events

unfoldable pub append_audit_event : Repository → AuditEvent → Repository
append_audit_event r event = record r { audit_events = r.audit_events ++ event ∷ [] }
