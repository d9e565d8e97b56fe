-- ===== src/Coordination/Approving.antt =====
-- What the constructors and steps of packages/coordination/src/index.js let through.
use xygo_aec.Base.{
  String, true, not, ok, throw_if-bind, ok-injective, includes, Value, ◌≡◌, sym, arith,
}
use xygo_aec.Access.{Session, InScope, assert_scope-bind}
use xygo_aec.Audit.{Crypto, Ambient}
use xygo_aec.Emission.{
  Emitted, Records, Announces, emit_sound, user_event-recorded, aggregate_event-announced,
}
use xygo_aec.Coordination.{
  ApprovalRequest, approval_statuses, update_approval_status, Coordinated, emit_coordination_audit,
}

-- A status update succeeds exactly in scope and with a status of the set, and changes nothing else.
pub update_approval_status_sound :
    (s : Session) (r r' : ApprovalRequest) (next : String)
    → update_approval_status s r next ≡ ok r'
    → InScope s r.tenant_id r.project_id
      × (includes approval_statuses next ≡ true)
      × (r' ≡ record r { status = next })
unfolding update_approval_status
update_approval_status_sound s r r' next h =
    let (scope, k) = assert_scope-bind s r.tenant_id r.project_id _ h in
    let (known, made) = throw_if-bind (not (includes approval_statuses next)) _ _ k in
    (scope, ground (arith, known), sym (ok-injective made))

pub emit_coordination_audit_sound :
    (c : Crypto) (a : Ambient) (s : Session) (r : Coordinated) (action : String) (payload : Value)
    (e : Emitted)
    → emit_coordination_audit c a s r action payload ≡ ok e
    → Records e.audit_event r.tenant_id s.user_id action r.id
      × Announces e.outbox_event action r.id r.tenant_id
unfolding emit_coordination_audit
emit_coordination_audit_sound c a s r action payload e h =
    let (audit, outbox) = emit_sound c a _ _ e h in
    (
      user_event-recorded c a _ _ _ _ _ e.audit_event audit,
      aggregate_event-announced a _ _ _ _ _ e.outbox_event outbox,
    )
