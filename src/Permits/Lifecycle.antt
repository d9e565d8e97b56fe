-- ===== src/Permits/Lifecycle.antt =====
-- What `transitionPermitPackage` of packages/permits/src/index.js accepts and does.
use xygo_aec.Base.{
  String, Bool, true, false, ◌&&◌, List, [], ok, includes, ◌===◌, any, Value, str, ◌≡◌, ◌≢◌, refl,
  arith, eq_iff, bind_inversion, ok-injective, throw_if-bind, throw_if-ok, not-eq_false,
}
use xygo_aec.Transitions.{targets}
use xygo_aec.Access.{Session, assert_scope-bind, InScope}
use xygo_aec.Audit.{Crypto, Ambient}
use xygo_aec.Emission.{
  transition_event-recorded, aggregate_event-announced, emit, emit_sound, Records, Announces,
}
use xygo_aec.Permits.{
  allowed_permit_transitions, PermitPackage, is_false, is_empty, check_permit, moved_permit,
  PermitMoved, transition_permit_package,
}

-- What the checks let through.
pub record Admits (p : PermitPackage) (next : String) (comments : List Value) : Type 0 where
  pub allowed : includes (targets allowed_permit_transitions p.status) next ≡ true
  pub forms : next ≡ "ready_for_submission" → any is_false p.required_forms_checklist ≡ false
  pub refs : next ≡ "simulated_submitted" → p.submission_package_refs ≢ []
  pub commented : next ≡ "reviewer_comments_received" → comments ≢ []

gate_open :
    (next state : String) (b : Bool) → ((next === state) && b) ≡ false → next ≡ state → b ≡ false
gate_open next state b h e = ground (arith, eq_iff next state)

not_empty : {A : Type 0} (xs : List A) → is_empty xs ≡ false → xs ≢ []
not_empty xs h e = ground arith

check_permit_sound :
    (p : PermitPackage) (next : String) (comments : List Value)
    → check_permit p next comments ≡ ok tt
    → Admits p next comments
unfolding check_permit
check_permit_sound p next comments h =
    let (known, h1) = throw_if-bind _ _ _ h in
    let (allowed, h2) = throw_if-bind _ _ _ h1 in
    let (forms, h3) = throw_if-bind _ _ _ h2 in
    let (refs, h4) = throw_if-bind _ _ _ h3 in
    let commented = throw_if-ok _ _ h4 in
    record {
      allowed = not-eq_false _ allowed;
      forms = gate_open next _ _ forms;
      refs = λ e. not_empty _ (gate_open next _ _ refs e);
      commented = λ e. not_empty _ (gate_open next _ _ commented e);
    }

-- What a transition leaves behind.
pub record Moved (session : Session) (p : PermitPackage) (next : String) (comments : List Value)
    (r : PermitMoved) : Type 0 where
  pub scope : InScope session p.tenant_id p.project_id
  pub admitted : Admits p next comments
  pub moved : r.permit_package ≡ moved_permit p next comments
  pub recorded :
      Records r.audit_event p.tenant_id session.user_id "permit.lifecycle.transitioned" p.id
  pub before : r.audit_event.before_state_ref ≡ str p.status
  pub after : r.audit_event.after_state_ref ≡ str next
  pub announced : Announces r.outbox_event "permit.lifecycle.transitioned" p.id p.tenant_id

-- A permit transition that succeeds was made by a staged session of the package's tenant with access
-- to its project, along the table; to be ready for submission no required form is missing, to be
-- submitted there is something to submit, and to receive comments there are comments. Both events
-- name the package and its tenant, the audit event the session's user and the two states too.
pub transition_permit_package_sound :
    (c : Crypto) (a : Ambient) (session : Session) (p : PermitPackage) (next : String)
    (comments : List Value) (r : PermitMoved)
    → transition_permit_package c a session p next comments ≡ ok r
    → Moved session p next comments r
unfolding transition_permit_package
transition_permit_package_sound c a session p next comments r h =
    let (scope, h1) = assert_scope-bind _ _ _ _ h in
    let (u, checked, h2) = bind_inversion (check_permit p next comments) _ h1 in
    let (events, emitted, h3) = bind_inversion (emit _ _ _ _) _ h2 in
    let (audit, outbox) = emit_sound _ _ _ _ events emitted in
    let (recorded, before, after) = transition_event-recorded _ _ _ _ _ _ _ _ _ _ _ audit in
    rw (← ok-injective h3) (record {
      scope = scope;
      admitted = check_permit_sound p next comments checked;
      moved = refl;
      recorded = recorded;
      before = before;
      after = after;
      announced = aggregate_event-announced _ _ _ _ _ _ _ outbox;
    })
