-- ===== src/Audit/Links.antt =====
-- The link of a new audit event to the last one of its tenant, as `buildTenantAuditEvent` of
-- apps/api/src/handlers.js and apps/api/src/repositories/memory.js find it.
use xygo_aec.Base.{
  String, List, [], ◌∷◌, ok, keep, if◌then◌else◌, Value, null, str, is_text, ◌or_else◌, ◌≡◌, refl,
  ◌∙◌, Bool-cases, inl, inr, throw_if-bind, ok-injective,
}
use xygo_aec.Audit.{Crypto, Ambient, AuditInput, AuditEvent, create_audit_event, seal, base_event}

abbrev pub last_hash : Value → List AuditEvent → Value
last_hash h [] = h
last_hash h (e ∷ es) = last_hash (str e.event_hash) es

-- The hash of the last event of the tenant, read from the first event to the last, or `h` if there is none.
abbrev pub link_after : String → Value → List AuditEvent → Value
link_after tenant_id h [] = h
link_after tenant_id h (e ∷ es) =
    link_after tenant_id (if is_text e.tenant_id tenant_id then str e.event_hash else h) es

pub last_hash-keep :
    (tenant_id : String) (h : Value) (es : List AuditEvent)
    → last_hash h (keep (λ e. is_text e.tenant_id tenant_id) es) ≡ link_after tenant_id h es
last_hash-keep tenant_id h [] = refl
last_hash-keep tenant_id h (e ∷ es) = elim (Bool-cases (is_text e.tenant_id tenant_id)) [
  | inl own ↦ rw own (last_hash-keep tenant_id (str e.event_hash) es)
  | inr other ↦ rw other (last_hash-keep tenant_id h es)
]

pub link_after-or_else :
    (tenant_id : String) (h : Value) (es : List AuditEvent)
    → (h or_else null) ≡ h
    → (link_after tenant_id h es or_else null) ≡ link_after tenant_id h es
link_after-or_else tenant_id h [] here = here
link_after-or_else tenant_id h (e ∷ es) here = elim (Bool-cases (is_text e.tenant_id tenant_id)) [
  | inl own ↦ rw own (link_after-or_else tenant_id (str e.event_hash) es refl)
  | inr other ↦ rw other (link_after-or_else tenant_id h es here)
]

pub create_audit_event-previous_hash :
    (c : Crypto) (a : Ambient) (input : AuditInput) (e : AuditEvent)
    → create_audit_event c a input ≡ ok e
    → e.previous_hash ≡ (input.previous_hash or_else null)
unfolding create_audit_event seal base_event
create_audit_event-previous_hash c a input e h =
    let (identified, k) = throw_if-bind _ _ _ h in let made = ok-injective k in rw (← made) refl

-- An event that was made from the hash of the tenant's last event is linked to it.
pub create_audit_event-linked :
    (c : Crypto) (a : Ambient) (input : AuditInput) (tenant_id : String) (events : List AuditEvent)
    (e : AuditEvent)
    → input.previous_hash ≡ last_hash null (keep (λ x. is_text x.tenant_id tenant_id) events)
    → create_audit_event c a input ≡ ok e
    → e.previous_hash ≡ link_after tenant_id null events
create_audit_event-linked c a input tenant_id events e from h =
    create_audit_event-previous_hash c a input e h
    ∙ rw (from, last_hash-keep tenant_id null events)
        (link_after-or_else tenant_id null events refl)
