-- ===== src/Repositories/Specification.antt =====
-- What the repository of apps/api/src/repositories/memory.js promises, without the order of its Maps:
-- functions from ids to records, and what each call does to them.
use xygo_aec.Base.{
  String, not, List, [], ◌∷◌, ◌++◌, Option, Result, ok, err, throw, ◌>>=◌, ◌>>◌, throw_if,
  if◌then◌else◌, Value,
}
use xygo_aec.Contracts
use xygo_aec.Contracts.{Project}
use xygo_aec.Coordination
use xygo_aec.Coordination.{Issue, Rfi, create_coordination_issue}
use xygo_aec.Permits
use xygo_aec.Permits.{PermitPackage}
use xygo_aec.Projects
use xygo_aec.Projects.{ReviewSession}
use xygo_aec.AiReview.{ReviewRun, Finding, create_review_run, create_finding, set_human_disposition}
use xygo_aec.Blueprints.{Blueprint, generate_platform_blueprint}
use xygo_aec.FieldReporting
use xygo_aec.FieldReporting.{FieldReport}
use xygo_aec.FileStorage.{StoredFile}
use xygo_aec.Audit.{AuditEvent}
use xygo_aec.Repositories.{
  Repository, Item, project, issue, rfi, permit, review_session, ai_review_run, ai_finding,
  platform_blueprint, field_report, file_record,
}
use xygo_aec.Repositories.Maps.{get, is_some, update}
use xygo_aec.Repositories.Memory
use xygo_aec.Repositories.Memory.{as_staged, permit_input, found_or}
use xygo_aec.Repositories.Mail

-- The calls that write records of projects and files.
pub data Call : Type 0 where
  create_project create_issue create_rfi create_permit_package create_review_session
        create_ai_review_run create_ai_finding create_platform_blueprint create_field_report :
      Value → Call
  set_ai_finding_disposition : String → String → Value → Call
  save_field_report : FieldReport → Call
  create_file_record save_file_record : StoredFile → Call
  finalize_file_record : StoredFile → AuditEvent → Call

abbrev pub tagged : {S A : Type 0} → (A → Item) → Result (S × A) → Result (S × Item)
tagged tag (err e) = err e
tagged tag (ok (s, a)) = ok (s, tag a)

-- A call of the repository.
unfoldable pub call : Repository → Call → Result (Repository × Item)
call r (create_project v) = tagged project (Memory.create_project r v)
call r (create_issue v) = tagged issue (Memory.create_issue r v)
call r (create_rfi v) = tagged rfi (Memory.create_rfi r v)
call r (create_permit_package v) = tagged permit (Memory.create_permit_package r v)
call r (create_review_session v) = tagged review_session (Memory.create_review_session r v)
call r (create_ai_review_run v) = tagged ai_review_run (Memory.create_ai_review_run r v)
call r (create_ai_finding v) = tagged ai_finding (Memory.create_ai_finding r v)
call r (create_platform_blueprint v) =
    tagged platform_blueprint (Memory.create_platform_blueprint r v)
call r (create_field_report v) = tagged field_report (Memory.create_field_report r v)
call r (set_ai_finding_disposition id next related) =
    tagged ai_finding (Memory.set_ai_finding_disposition r id next related)
call r (save_field_report f) = tagged field_report (ok (Memory.save_field_report r f))
call r (create_file_record f) = tagged file_record (Mail.create_file_record r f)
call r (save_file_record f) = tagged file_record (Mail.save_file_record r f)
call r (finalize_file_record f e) = tagged file_record (Mail.finalize_file_record r f e)

-- The abstract state.
abbrev pub Lookup : Type 0 → Type 0
Lookup A = String → Option A

pub record Spec : Type 0 where
  pub projects : Lookup Project
  pub issues : Lookup Issue
  pub rfis : Lookup Rfi
  pub permits : Lookup PermitPackage
  pub review_sessions : Lookup ReviewSession
  pub ai_review_runs : Lookup ReviewRun
  pub ai_findings : Lookup Finding
  pub platform_blueprints : Lookup Blueprint
  pub field_reports : Lookup FieldReport
  pub file_records : Lookup StoredFile
  pub audit_events : List AuditEvent

-- What a repository stands for.
unfoldable pub view : Repository → Spec
view r = record {
  projects = λ id. get id r.projects;
  issues = λ id. get id r.issues;
  rfis = λ id. get id r.rfis;
  permits = λ id. get id r.permits;
  review_sessions = λ id. get id r.review_sessions;
  ai_review_runs = λ id. get id r.ai_review_runs;
  ai_findings = λ id. get id r.ai_findings;
  platform_blueprints = λ id. get id r.platform_blueprints;
  field_reports = λ id. get id r.field_reports;
  file_records = λ id. get id r.file_records;
  audit_events = r.audit_events;
}

-- A new record under an id that is free.
abbrev pub claim : {A : Type 0} → String → String → A → Lookup A → Result (Lookup A)
claim message id a f = if is_some (f id) then throw message else ok (update f id a)

-- A record in the place of one that is there.
abbrev pub replace : {A : Type 0} → String → String → A → Lookup A → Result (Lookup A)
replace message id a f = throw_if (not (is_some (f id))) message >> ok (update f id a)

unfoldable pub spec_call : Spec → Call → Result (Spec × Item)
spec_call s (create_project v) = do
  made ← Contracts.create_project (as_staged v)
  projects ← claim "Project id already exists." made.id made s.projects
  ok (record s { projects = projects }, project made)
spec_call s (create_issue v) = do
  made ← create_coordination_issue (as_staged v)
  issues ← claim "Coordination issue id already exists." made.id made s.issues
  ok (record s { issues = issues }, issue made)
spec_call s (create_rfi v) = do
  made ← Coordination.create_rfi (as_staged v)
  rfis ← claim "RFI id already exists." made.id made s.rfis
  ok (record s { rfis = rfis }, rfi made)
spec_call s (create_permit_package v) = do
  made ← Permits.create_permit_package (permit_input (as_staged v))
  permits ← claim "Permit package id already exists." made.id made s.permits
  ok (record s { permits = permits }, permit made)
spec_call s (create_review_session v) = do
  made ← Projects.create_review_session (as_staged v)
  review_sessions ← claim "Review session id already exists." made.id made s.review_sessions
  ok (record s { review_sessions = review_sessions }, review_session made)
spec_call s (create_ai_review_run v) = do
  made ← create_review_run (as_staged v)
  ai_review_runs ← claim "AI review run id already exists." made.id made s.ai_review_runs
  ok (record s { ai_review_runs = ai_review_runs }, ai_review_run made)
spec_call s (create_ai_finding v) = do
  made ← create_finding (as_staged v)
  ai_findings ← claim "AI finding id already exists." made.id made s.ai_findings
  ok (record s { ai_findings = ai_findings }, ai_finding made)
spec_call s (create_platform_blueprint v) = do
  made ← generate_platform_blueprint (as_staged v)
  platform_blueprints ←
      claim "Platform blueprint id already exists." made.id made s.platform_blueprints
  ok (record s { platform_blueprints = platform_blueprints }, platform_blueprint made)
spec_call s (create_field_report v) = do
  made ← FieldReporting.create_field_report (as_staged v)
  field_reports ← claim "Field report id already exists." made.id made s.field_reports
  ok (record s { field_reports = field_reports }, field_report made)
spec_call s (set_ai_finding_disposition id next related) = do
  finding ← found_or "AI finding not found." (s.ai_findings id)
  updated ← set_human_disposition finding next related
  ok (record s { ai_findings = update s.ai_findings id updated }, ai_finding updated)
spec_call s (save_field_report f) =
    ok (record s { field_reports = update s.field_reports f.id f }, field_report f)
spec_call s (create_file_record f) = do
  file_records ← claim "File id already exists." f.id f s.file_records
  ok (record s { file_records = file_records }, file_record f)
spec_call s (save_file_record f) = do
  file_records ← replace "File record not found." f.id f s.file_records
  ok (record s { file_records = file_records }, file_record f)
spec_call s (finalize_file_record f e) = do
  file_records ← replace "File record not found." f.id f s.file_records
  ok (
    record s { file_records = file_records; audit_events = s.audit_events ++ e ∷ [] },
    file_record f,
  )

-- A call after which the state is kept if it throws, and its reply.
abbrev pub settled : {S : Type 0} → S → Result (S × Item) → S × Result Item
settled s (err e) = (s, err e)
settled s (ok (s', i)) = (s', ok i)

-- The state and the replies after a run of calls.
abbrev pub reply_then : {S : Type 0} → Result Item → S × List (Result Item) → S × List (Result Item)
reply_then reply (s, replies) = (s, reply ∷ replies)

unfoldable pub run : List Call → Repository → Repository × List (Result Item)
run [] r = (r, [])
run (c ∷ cs) r = let (r', reply) = settled r (call r c) in reply_then reply (run cs r')

unfoldable pub spec_run : List Call → Spec → Spec × List (Result Item)
spec_run [] s = (s, [])
spec_run (c ∷ cs) s =
    let (s', reply) = settled s (spec_call s c) in reply_then reply (spec_run cs s')
