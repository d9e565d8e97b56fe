-- ===== src/Examples/Permits.antt =====
-- The permit lifecycle at a concrete run.
use xygo_aec.Base.{◌+◌, true, List, [], ◌∷◌, ok, ◌≡◌, refl, str, nil, arr}
use xygo_aec.Access.{assert_scope}
use xygo_aec.Audit.{create_audit_event, create_outbox_event, seal, base_event, usable_key}
use xygo_aec.Emission.{emit, transition_event, aggregate_event}
use xygo_aec.Permits.{
  PermitPackage, PermitMoved, check_permit, moved_permit, transition_permit_package,
}
use xygo_aec.Permits.Cycles.{
  Step, run_permit, submissions, IsSubmitted, run_permit-submission_cycles,
}
use xygo_aec.Examples.Data.{crypto, ambient, session}

abbrev permit : PermitPackage
permit = record {
  id = "pp1";
  tenant_id = "tenant-a";
  project_id = "p1";
  jurisdiction_profile = "city";
  status = "ready_for_submission";
  submission_package_refs = str "drawing:a1" ∷ [];
  required_forms_checklist = [];
  review_comments = [];
  response_matrix = arr nil;
  submission_cycles = 0;
  permit_readiness_findings = arr nil;
  staged = true;
}

submitted :
    (r : PermitMoved) × (transition_permit_package crypto ambient session permit
        "simulated_submitted" []
      ≡ ok r)
unfolding transition_permit_package assert_scope check_permit moved_permit emit transition_event
    aggregate_event create_audit_event create_outbox_event seal base_event usable_key
submitted = (_, refl)

abbrev steps : List Step
steps =
    record {
      ambient = ambient;
      session = session;
      next_status = "simulated_submitted";
      review_comments = [];
    }
    ∷ record {
      ambient = ambient;
      session = session;
      next_status = "simulated_approved";
      review_comments = [];
    }
    ∷ []

approved : (q : PermitPackage) × (run_permit crypto permit steps ≡ ok q)
unfolding run_permit transition_permit_package assert_scope check_permit moved_permit emit
    transition_event aggregate_event create_audit_event create_outbox_event seal base_event
    usable_key
approved = (_, refl)

not_yet : IsSubmitted permit
not_yet h = cc

run_permit-submission_cycles_example :
    (approved.0.submission_cycles ≡ 0 + submissions steps) × IsSubmitted approved.0
run_permit-submission_cycles_example =
    run_permit-submission_cycles crypto permit approved.0 steps not_yet approved.1
