-- ===== src/Repositories.antt =====
-- apps/api/src/repositories/memory.js: the repository that keeps its records in Maps. A record that is
-- read or written is a copy there, and a value here. `Repositories.Memory` has its operations on the
-- records of a project, `Repositories.Mail` those on files and emails.
pub mod Maps
pub mod Memory
pub mod Mail
pub mod Specification
pub mod Refinement
use xygo_aec.Base.{String, List, ℕ}
use xygo_aec.Contracts.{Project}
use xygo_aec.Coordination.{Issue, Rfi}
use xygo_aec.Permits.{PermitPackage}
use xygo_aec.Projects.{ReviewSession}
use xygo_aec.AiReview.{ReviewRun, Finding}
use xygo_aec.Blueprints.{Blueprint}
use xygo_aec.FieldReporting.{FieldReport}
use xygo_aec.FileStorage.{StoredFile}
use xygo_aec.Email.{EmailDelivery}
use xygo_aec.Email.Provider.{EmailSuppression, ProviderEvent}
use xygo_aec.Email.Suppressions.{Heartbeat}
use xygo_aec.Audit.{AuditEvent}

-- `{ id: webhookId, tenantId, event }`
pub record WebhookEvent : Type 0 where
  pub id : String
  pub tenant_id : String
  pub event : ProviderEvent

abbrev pub Store : Type 0 → Type 0
Store A = List (String × A)

pub record Repository : Type 0 where
  pub projects : Store Project
  pub issues : Store Issue
  pub rfis : Store Rfi
  pub permits : Store PermitPackage
  pub review_sessions : Store ReviewSession
  pub ai_review_runs : Store ReviewRun
  pub ai_findings : Store Finding
  pub platform_blueprints : Store Blueprint
  pub field_reports : Store FieldReport
  pub file_records : Store StoredFile
  pub email_deliveries : Store EmailDelivery
  pub email_suppressions : Store EmailSuppression
  pub email_webhook_events : Store WebhookEvent
  pub service_heartbeats : Store Heartbeat
  pub audit_events : List AuditEvent

-- A record that an operation returns.
pub data Item : Type 0 where
  project : Project → Item
  issue : Issue → Item
  rfi : Rfi → Item
  permit : PermitPackage → Item
  review_session : ReviewSession → Item
  ai_review_run : ReviewRun → Item
  ai_finding : Finding → Item
  platform_blueprint : Blueprint → Item
  field_report : FieldReport → Item
  file_record : StoredFile → Item
