-- ===== src/Examples/Blueprints.antt =====
-- A blueprint for a business with a selected module.
use xygo_aec.Base.{true, ◌++◌, ◌≡◌, nil, cons, null, str}
use xygo_aec.Blueprints.{
  Intake, recommend_modules, recommended, reason_for, selections, matches, baseline, module_library,
}
use xygo_aec.Blueprints.Recommending.{recommend_modules_lem}

abbrev intake : Intake
intake = record {
  id = "b1";
  tenant_id = "tenant-a";
  business_name = "Roofs";
  industry = "construction";
  service_line = null;
  roles = nil;
  workflows = cons (str "Schedule crews") nil;
  pain_points = nil;
  portal_requirements = nil;
  dashboard_requirements = nil;
  ai_agent_requirements = nil;
  document_reporting_needs = nil;
  integration_needs = nil;
  selected_modules = cons (str "permitting") nil;
  staged = true;
}

recommend_modules_lem_example :
    recommend_modules intake
    ≡ recommended
        (λ key. reason_for key ((selections intake ++ matches intake) ++ baseline intake))
        module_library
recommend_modules_lem_example = recommend_modules_lem intake
