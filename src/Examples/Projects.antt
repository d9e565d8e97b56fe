-- ===== src/Examples/Projects.antt =====
-- The project lifecycle at concrete runs.
use xygo_aec.Base.{
  true, List, [], ◌∷◌, Result, ok, err, ◌≡◌, ◌⊎◌, refl, undefined, str, set_has, any,
}
use xygo_aec.Contracts.{Project}
use xygo_aec.Access.{assert_scope}
use xygo_aec.Audit.{create_audit_event, create_outbox_event, seal, base_event, usable_key}
use xygo_aec.Emission.{emit, transition_event, aggregate_event}
use xygo_aec.Projects.{TransitionInput, Transitioned, transition_lifecycle, check_transition}
use xygo_aec.Projects.Lifecycle.{Moved, transition_lifecycle_sound}
use xygo_aec.Projects.Approvals.{
  Step, run_transitions, run_transitions-approved, early_states, approves,
}
use xygo_aec.Examples.Data.{crypto, ambient, session}

abbrev project : Project
project = record {
  id = "p1";
  tenant_id = "tenant-a";
  name = "Tower";
  project_type = str "commercial";
  status = str "coordination_review";
  staged = true;
}

abbrev to_permit : TransitionInput
to_permit = record {
  from_state = "coordination_review";
  to_state = "approved_for_permit";
  required_artifact_refs = "drawing:a1" ∷ [];
  blocking_issue_ids = [];
  correlation_id = undefined;
}

abbrev result_of : Result Transitioned → Transitioned → Transitioned
result_of (ok r) d = r
result_of (err e) d = d

abbrev permitted : Project
permitted = record project { status = str "approved_for_permit" }

to_permit_made :
    (r : Transitioned) × (transition_lifecycle crypto ambient session project to_permit ≡ ok r)
unfolding transition_lifecycle assert_scope check_transition emit transition_event aggregate_event
    create_audit_event create_outbox_event seal base_event usable_key
to_permit_made = (_, refl)

transition_lifecycle-sound_example : Moved session project to_permit to_permit_made.0
transition_lifecycle-sound_example =
    transition_lifecycle_sound crypto ambient session project to_permit to_permit_made.0
      to_permit_made.1

abbrev steps : List Step
steps = record { ambient = ambient; session = session; transition = to_permit } ∷ []

steps_run : run_transitions crypto project steps ≡ ok permitted
unfolding run_transitions transition_lifecycle assert_scope check_transition emit transition_event
    aggregate_event create_audit_event create_outbox_event seal base_event usable_key
steps_run = refl

run_transitions-approved_example :
    (set_has early_states permitted.status ≡ true) ⊎ (any approves steps ≡ true)
run_transitions-approved_example =
    run_transitions-approved crypto project permitted steps refl steps_run
