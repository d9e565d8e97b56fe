-- ===== src/Audit/Tampering.antt =====
-- What a change to a verified chain of packages/audit/src/foundation.js cannot hide, and what the
-- verification does not read.
use xygo_aec.Base.{
  String, List, [], ◌∷◌, map, Option, none, some, Result, ok, err, ◌>>=◌, Value, null, str, num,
  bool, true, obj, field, end, ◌or_else◌, ◌≡◌, ◌≢◌, ◌⊎◌, refl, ap, ◌∙◌,
}
use xygo_aec.Audit.{Crypto, Ambient, AuditEvent, create_audit_event}
use xygo_aec.Audit.Chain.{
  input_of, Verdict, check_signature, check_event, verify_from, verify_audit_chain, go_on,
}
use xygo_aec.Audit.Json.{stable_serialize}

-- Two lists of texts hold different texts with one digest at the same place.
abbrev pub Collides : Crypto → List String → List String → Type 0
Collides c (x ∷ xs) (y ∷ ys) = ((x ≢ y) × (c.sha256 x ≡ c.sha256 y)) ⊎ Collides c xs ys
Collides c _ _ = ⊥

-- The text of all that an event says, linked to the hash `previous`: JSON of these fields. A missing one is
-- as `createAuditEvent` fills it.
unfoldable pub hashed_text : Ambient → Value → AuditEvent → String
hashed_text b previous e = stable_serialize (
    obj (
      field "eventId" (e.event_id or_else str b.event_uuid) (
        field "tenantId" e.tenant_id (
          field "actorType" (e.actor_type or_else str "system") (
            field "actorId" (e.actor_id or_else str "unknown") (
              field "action" e.action (
                field "resourceType" e.resource_type (
                  field "resourceId" e.resource_id (
                    field "beforeStateRef" (e.before_state_ref or_else null) (
                      field "afterStateRef" (e.after_state_ref or_else null) (
                        field "correlationId" (e.correlation_id or_else str b.correlation_uuid) (
                          field "requestId" (e.request_id or_else str b.request_uuid) (
                            field "schemaVersion" (num 1) (
                              field "staged" (bool true) (
                                field "timestamp" (e.timestamp or_else str b.now)
                                  (field "previousHash" (previous or_else null) end))))))))))))))))

-- The texts of the events of a chain, each linked to the hash of the one before.
unfoldable pub hashed_texts : Ambient → Value → List AuditEvent → List String
hashed_texts b previous [] = []
hashed_texts b previous (e ∷ es) = hashed_text b previous e ∷ hashed_texts b (str e.event_hash) es

abbrev pub hashes : List AuditEvent → List String
hashes [] = []
hashes (e ∷ es) = e.event_hash ∷ hashes es

-- An event with another link, schema version and staged mark.
abbrev pub relabel : Value → Value → Value → AuditEvent → AuditEvent
relabel link version staged e = record e {
  previous_hash = link;
  schema_version = version;
  staged = staged;
}

check_signature-relabel :
    (key : Option String) (r e : AuditEvent) (link version staged : Value)
    → check_signature key r (relabel link version staged e) ≡ check_signature key r e
unfolding check_signature
check_signature-relabel none r e link version staged = refl
check_signature-relabel (some k) r e link version staged = refl

check_event-relabel :
    (key : Option String) (r e : AuditEvent) (link version staged : Value)
    → check_event key r (relabel link version staged e) ≡ check_event key r e
unfolding check_event
check_event-relabel key r e link version staged = rw check_signature-relabel

check_then :
    (key : Option String) (r : Result AuditEvent) (e : AuditEvent) (link version staged : Value)
    (rest : Result Verdict)
    → (r >>= λ x. go_on (check_event key x (relabel link version staged e)) rest)
      ≡ (r >>= λ x. go_on (check_event key x e) rest)
check_then key (ok x) e link version staged rest =
    ap (λ v. go_on v rest) (check_event-relabel key x e link version staged)
check_then key (err f) e link version staged rest = refl

verify_from-relabel :
    (c : Crypto) (b : Ambient) (key : Option String) (link version staged previous : Value)
    (es : List AuditEvent)
    → verify_from c b key previous (map (relabel link version staged) es)
      ≡ verify_from c b key previous es
unfolding verify_from input_of
verify_from-relabel c b key link version staged previous [] = refl
verify_from-relabel c b key link version staged previous (e ∷ es) =
    let head = create_audit_event c b (input_of e previous key) in
    check_then key head e link version staged _
    ∙ ap (λ rest. head >>= λ x. go_on (check_event key x e) rest)
        (verify_from-relabel c b key link version staged (str e.event_hash) es)

-- The verification reads neither the stored `previousHash` nor `schemaVersion` nor `staged`: any
-- values of them in every event leave its result as it is.
pub verify_audit_chain-relabel :
    (c : Crypto) (b : Ambient) (key : Option String) (link version staged : Value)
    (es : List AuditEvent)
    → verify_audit_chain c b key (map (relabel link version staged) es)
      ≡ verify_audit_chain c b key es
unfolding verify_audit_chain
verify_audit_chain-relabel c b key link version staged es =
    verify_from-relabel c b key link version staged null es
