-- ===== src/Projects/Lifecycle.antt =====
-- What `transitionLifecycle` of packages/projects/src/index.js accepts and does.
use xygo_aec.Base.{
  String, Bool, true, false, not, List, [], ok, includes, str, is_text_sound, ◌≡◌, ◌≢◌, refl, arith,
  bind_inversion, ok-injective, throw_if-bind, throw_if-ok, not-eq_false, ◌&&◌,
}
use xygo_aec.Transitions.{targets}
use xygo_aec.Contracts.{Project}
use xygo_aec.Access.{Session, assert_scope-bind, InScope}
use xygo_aec.Audit.{Crypto, Ambient}
use xygo_aec.Emission.{
  transition_event-recorded, aggregate_event-announced, emit, emit_sound, Records, Announces,
}
use xygo_aec.Projects.{
  allowed_transitions, TransitionInput, Transitioned, gated_states, is_empty, check_transition,
  transition_audit, transition_lifecycle,
}

-- What the checks let through.
pub record Admits (project : Project) (t : TransitionInput) : Type 0 where
  pub current : project.status ≡ str t.from_state
  pub allowed : includes (targets allowed_transitions t.from_state) t.to_state ≡ true
  pub unblocked : includes gated_states t.to_state ≡ true → t.blocking_issue_ids ≡ []
  pub documented : includes gated_states t.to_state ≡ true → t.required_artifact_refs ≢ []

no_blocker :
    (issues : List String) (gated : Bool)
    → (not (is_empty issues) && gated) ≡ false
    → gated ≡ true
    → issues ≡ []
no_blocker issues gated h g = ground arith

some_artifact :
    (refs : List String) (gated : Bool)
    → (is_empty refs && gated) ≡ false
    → gated ≡ true
    → refs ≢ []
some_artifact refs gated h g e = ground arith

check_transition_sound :
    (project : Project) (t : TransitionInput)
    → check_transition project t ≡ ok tt
    → Admits project t
unfolding check_transition
check_transition_sound project t h =
    let (known, h1) = throw_if-bind _ _ _ h in
    let (current, h2) = throw_if-bind _ _ _ h1 in
    let (allowed, h3) = throw_if-bind _ _ _ h2 in
    let (unblocked, h4) = throw_if-bind _ _ _ h3 in
    let documented = throw_if-ok _ _ h4 in
    record {
      current = is_text_sound project.status t.from_state (not-eq_false _ current);
      allowed = not-eq_false _ allowed;
      unblocked = λ gated. no_blocker t.blocking_issue_ids _ unblocked gated;
      documented = λ gated. some_artifact t.required_artifact_refs _ documented gated;
    }

-- What a transition leaves behind.
pub record Moved (session : Session) (project : Project) (t : TransitionInput) (r : Transitioned)
    : Type 0 where
  pub scope : InScope session project.tenant_id project.id
  pub admitted : Admits project t
  pub moved : r.project ≡ record project { status = str t.to_state }
  pub recorded :
      Records r.audit_event project.tenant_id session.user_id "project.lifecycle.transitioned"
        project.id
  pub before : r.audit_event.before_state_ref ≡ str t.from_state
  pub after : r.audit_event.after_state_ref ≡ str t.to_state
  pub announced :
      Announces r.outbox_event "project.lifecycle.transitioned" project.id project.tenant_id

-- A lifecycle transition that succeeds was made by a staged session of the project's tenant with
-- access to the project, from the project's current state to one that the table allows, and, where
-- the new state is an approval for permit or construction, with no blocking issue and at least one
-- artifact. It changes the status of the project and nothing else, and both of its events name the
-- project and its tenant, the audit event the session's user and the two states too.
pub transition_lifecycle_sound :
    (c : Crypto) (a : Ambient) (session : Session) (project : Project) (t : TransitionInput)
    (r : Transitioned)
    → transition_lifecycle c a session project t ≡ ok r
    → Moved session project t r
unfolding transition_lifecycle
transition_lifecycle_sound c a session project t r h =
    let (scope, h1) = assert_scope-bind session project.tenant_id project.id _ h in
    let (u, checked, h2) = bind_inversion (check_transition project t) _ h1 in
    let (events, emitted, h3) =
      bind_inversion (emit c a (transition_audit session project t) _) _ h2 in
    let (audit, outbox) = emit_sound c a _ _ events emitted in
    let (recorded, before, after) =
      transition_event-recorded c a _ _ _ _ _ _ _ _ events.audit_event audit in
    let announced = aggregate_event-announced a _ _ _ _ _ events.outbox_event outbox in
    let same = ok-injective h3 in
    rw (← same) (record {
      scope = scope;
      admitted = check_transition_sound project t checked;
      moved = refl;
      recorded = recorded;
      before = before;
      after = after;
      announced = announced;
    })
