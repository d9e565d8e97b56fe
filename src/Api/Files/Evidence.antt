-- ===== src/Api/Files/Evidence.antt =====
-- The audit event that the file routes of apps/api/src/handlers.js build by `buildTenantAuditEvent`.
use xygo_aec.Base.{String, ok, Value, null, ◌or_else◌, ◌≡◌, refl}
use xygo_aec.Audit.{Crypto, Ambient, AuditEvent, create_audit_event}
use xygo_aec.Audit.Links.{link_after, create_audit_event-linked}
use xygo_aec.Emission.{transition_event, user_event, Records, create_audit_event-fields}
use xygo_aec.FileStorage.{StoredFile}
use xygo_aec.Repositories.{Repository}
use xygo_aec.Api.Files.{FileRequest, file_event}

-- What the event says: who did what to which file of the tenant, from which state to which, after the last
-- event of the tenant.
pub record Evidence (q : FileRequest) (r : Repository) (action id : String) (before after : Value)
    (event : AuditEvent) : Type 0 where
  pub recorded : Records event q.tenant_id q.principal.user_id action id
  pub before_state : event.before_state_ref ≡ (before or_else null)
  pub after_state : event.after_state_ref ≡ (after or_else null)
  pub linked : event.previous_hash ≡ link_after q.tenant_id null r.audit_events

pub file_event-Evidence :
    (c : Crypto) (a : Ambient) (q : FileRequest) (r : Repository) (action : String)
    (file : StoredFile) (before after : Value) (event : AuditEvent)
    → create_audit_event c a (file_event q r action file before after) ≡ ok event
    → Evidence q r action file.id before after event
unfolding transition_event user_event
file_event-Evidence c a q r action file before after event h =
    let (tenant, name, resource, actor, b, f) = create_audit_event-fields c a _ event h in
    record {
      recorded = record { tenant = tenant; actor = actor; action_name = name; resource = resource };
      before_state = b;
      after_state = f;
      linked = create_audit_event-linked c a _ q.tenant_id r.audit_events event refl h;
    }
