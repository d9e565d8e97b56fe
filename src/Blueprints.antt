-- ===== src/Blueprints.antt =====
-- packages/platform-blueprint/src/index.js: the intake of a business, the modules that are recommended
-- for it, and the blueprint that is generated.
pub mod Recommending
use xygo_aec.Base.{
  ℕ, zero, ◌+◌, String, Bool, true, false, not, ◌||◌, List, [], ◌∷◌, ◌++◌, map, keep, find, length,
  Option, none, some, Result, ok, ◌>>=◌, ◌>>◌, throw_if, includes, ◌⧺◌, ◌===◌, has_part, to_lower,
  decimal, if◌then◌else◌, Value, Values, nil, cons, undefined, null, bool, num, str, arr, obj,
  member, is_true, shown, ◌or_else◌, required_string,
}

abbrev pub industries : List String
industries =
    "construction" ∷ "field_services" ∷ "inspections" ∷ "engineering" ∷ "home_services" ∷ "other"
    ∷ []

-- A module of the library.
pub record Module : Type 0 where
  pub key : String
  pub name : String
  pub category : String
  pub replaces : String

abbrev module_of : String → String → String → String → Module
module_of key name category replaces = record {
  key = key;
  name = name;
  category = category;
  replaces = replaces;
}

abbrev pub module_library : List Module
module_library =
    module_of "client_portal" "Client Portal" "customer_experience" "email/phone status updates"
    ∷ module_of "scheduling" "Scheduling & Booking" "operations" "manual calendar coordination"
    ∷ module_of "crm_intake" "CRM / Lead Intake" "sales" "spreadsheet lead tracking"
    ∷ module_of "field_reporting" "Field Reporting" "operations" "paper/photo field notes"
    ∷ module_of "document_analysis" "Document Analysis" "knowledge" "manual document review"
    ∷ module_of "compliance_review" "Compliance / Insurance Review" "risk"
        "manual compliance checks"
    ∷ module_of "permitting" "Permitting" "operations" "manual permit package prep"
    ∷ module_of "accounting_job_costing" "Accounting / Job Costing Dashboard" "finance"
        "spreadsheet job costing"
    ∷ module_of "ai_receptionist" "AI Receptionist" "ai_agent" "missed calls and manual intake"
    ∷ module_of "ai_project_coordinator" "AI Project Coordinator" "ai_agent" "manual status chasing"
    ∷ module_of "reporting_dashboard" "Reporting Dashboard" "analytics" "manual report compilation"
    ∷ []

-- `MODULE_BY_KEY.get(key)`
unfoldable pub module_by_key : String → Option Module
module_by_key key = find (λ m. m.key === key) module_library

pub record ModuleRule : Type 0 where
  pub key : String
  pub triggers : List String

abbrev rule : String → List String → ModuleRule
rule key triggers = record { key = key; triggers = triggers }

abbrev pub module_rules : List ModuleRule
module_rules =
    rule "field_reporting" (
      "field report" ∷ "field data" ∷ "photo" ∷ "job site" ∷ "inspection report" ∷ "daily log" ∷ [])
    ∷ rule "client_portal" (
        "client portal" ∷ "customer portal" ∷ "client visibility" ∷ "status update"
        ∷ "share reports" ∷ [])
    ∷ rule "scheduling" ("schedule" ∷ "booking" ∷ "dispatch" ∷ "appointment" ∷ "calendar" ∷ [])
    ∷ rule "crm_intake" ("lead" ∷ "intake" ∷ "crm" ∷ "estimate request" ∷ "new inquiry" ∷ [])
    ∷ rule "document_analysis"
        ("document" ∷ "spec" ∷ "drawing" ∷ "contract" ∷ "submittal" ∷ "pdf" ∷ [])
    ∷ rule "compliance_review"
        ("compliance" ∷ "insurance" ∷ "coi" ∷ "safety" ∷ "osha" ∷ "certification" ∷ [])
    ∷ rule "permitting" ("permit" ∷ "jurisdiction" ∷ "ahj" ∷ "code review" ∷ [])
    ∷ rule "accounting_job_costing"
        ("job cost" ∷ "invoic" ∷ "accounting" ∷ "budget" ∷ "margin" ∷ "billing" ∷ [])
    ∷ rule "ai_receptionist" ("receptionist" ∷ "answer calls" ∷ "phone intake" ∷ "after hours" ∷ [])
    ∷ rule "ai_project_coordinator"
        ("coordinat" ∷ "status chasing" ∷ "follow up" ∷ "project manager assist" ∷ [])
    ∷ rule "reporting_dashboard" ("report" ∷ "dashboard" ∷ "kpi" ∷ "metrics" ∷ "analytics" ∷ [])
    ∷ []

-- `INDUSTRY_DEFAULT_MODULES[industry] ?? []`
abbrev pub industry_default_modules : String → List String
industry_default_modules i =
    if i === "construction"
    then "field_reporting" ∷ "client_portal" ∷ "document_analysis" ∷ "reporting_dashboard" ∷ []
    else if i === "field_services"
    then "scheduling" ∷ "field_reporting" ∷ "client_portal" ∷ "crm_intake" ∷ []
    else if i === "inspections"
    then "field_reporting" ∷ "document_analysis" ∷ "compliance_review" ∷ "client_portal" ∷ []
    else if i === "engineering"
    then "document_analysis" ∷ "reporting_dashboard" ∷ "client_portal" ∷ []
    else if i === "home_services"
    then "scheduling" ∷ "crm_intake" ∷ "client_portal" ∷ "ai_receptionist" ∷ []
    else if i === "other"
    then "client_portal" ∷ "reporting_dashboard" ∷ []
    else []

-- `toArray(value)`
abbrev pub to_array : Value → Values
to_array (arr vs) = vs
to_array _ = nil

pub record Intake : Type 0 where
  pub id : String
  pub tenant_id : String
  pub business_name : String
  pub industry : String
  pub service_line : Value
  pub roles : Values
  pub workflows : Values
  pub pain_points : Values
  pub portal_requirements : Values
  pub dashboard_requirements : Values
  pub ai_agent_requirements : Values
  pub document_reporting_needs : Values
  pub integration_needs : Values
  pub selected_modules : Values
  pub staged : Bool

unfoldable pub create_blueprint_intake : Value → Result Intake
create_blueprint_intake input = do
  id ← required_string (member input "id") "Blueprint id"
  tenant_id ← required_string (member input "tenantId") "Blueprint tenantId"
  business_name ← required_string (member input "businessName") "Business name"
  industry ← required_string (member input "industry") "Industry"
  throw_if (not (includes industries industry)) ("Unknown industry: " ⧺ industry)
  throw_if (not (is_true (member input "staged"))) "Blueprint intake must be staged."
  ok (record {
    id = id;
    tenant_id = tenant_id;
    business_name = business_name;
    industry = industry;
    service_line = member input "serviceLine" or_else null;
    roles = to_array (member input "roles");
    workflows = to_array (member input "workflows");
    pain_points = to_array (member input "painPoints");
    portal_requirements = to_array (member input "portalRequirements");
    dashboard_requirements = to_array (member input "dashboardRequirements");
    ai_agent_requirements = to_array (member input "aiAgentRequirements");
    document_reporting_needs = to_array (member input "documentReportingNeeds");
    integration_needs = to_array (member input "integrationNeeds");
    selected_modules = to_array (member input "selectedModules");
    staged = true;
  })

-- The text of an element under `join`, which leaves out null and undefined.
abbrev element_text : Value → String
element_text undefined = ""
element_text null = ""
element_text (bool b) = shown (bool b)
element_text (num n) = shown (num n)
element_text (str s) = s
element_text (arr vs) = shown (arr vs)
element_text (obj fs) = shown (obj fs)

abbrev join_values : String → Values → String
join_values separator nil = ""
join_values separator (cons v vs) = separator ⧺ element_text v ⧺ join_values separator vs

-- The searched text, in lower case.
unfoldable pub haystack : Intake → String
haystack intake = to_lower (
    element_text (intake.service_line or_else str "")
    ⧺ join_values " \n " intake.workflows
    ⧺ join_values " \n " intake.pain_points
    ⧺ join_values " \n " intake.portal_requirements
    ⧺ join_values " \n " intake.dashboard_requirements
    ⧺ join_values " \n " intake.ai_agent_requirements
    ⧺ join_values " \n " intake.document_reporting_needs
    ⧺ join_values " \n " intake.integration_needs)

-- A key with the rationale for it. The Map of recommendations has its entries in order.
abbrev pub Reason : Type 0
Reason = String × String

abbrev pub reason_for : String → List Reason → Option String
reason_for key [] = none
reason_for key ((k, rationale) ∷ rest) = if k === key then some rationale else reason_for key rest

abbrev pub is_some {ℓ} : {A : Type ℓ} → Option A → Bool
is_some none = false
is_some (some a) = true

-- `add(key, rationale)`
unfoldable pub add : List Reason → Reason → List Reason
add recommendations (key, rationale) =
    if not (is_some (module_by_key key)) || is_some (reason_for key recommendations)
    then recommendations
    else recommendations ++ (key, rationale) ∷ []

unfoldable pub add_each : List Reason → List Reason → List Reason
add_each recommendations [] = recommendations
add_each recommendations (r ∷ rs) = add_each (add recommendations r) rs

-- The calls of `add` in the three loops. Only a text can be a key of the library.
abbrev selected_reasons : Values → List Reason
selected_reasons nil = []
selected_reasons (cons (str key) vs) = (key, "explicitly selected") ∷ selected_reasons vs
selected_reasons (cons v vs) = selected_reasons vs

abbrev triggered_by : String → Option String → List Reason
triggered_by key none = []
triggered_by key (some trigger) = (key, "matched requirement: \"" ⧺ trigger ⧺ "\"") ∷ []

abbrev triggered_reasons : String → List ModuleRule → List Reason
triggered_reasons text [] = []
triggered_reasons text (r ∷ rs) =
    triggered_by r.key (find (λ t. has_part t text) r.triggers) ++ triggered_reasons text rs

abbrev baseline_reasons : String → List String → List Reason
baseline_reasons industry [] = []
baseline_reasons industry (key ∷ keys) =
    (key, industry ⧺ " baseline") ∷ baseline_reasons industry keys

unfoldable pub selections : Intake → List Reason
selections intake = selected_reasons intake.selected_modules

unfoldable pub matches : Intake → List Reason
unfolding haystack
matches intake = triggered_reasons (haystack intake) module_rules

unfoldable pub baseline : Intake → List Reason
baseline intake = baseline_reasons intake.industry (industry_default_modules intake.industry)

pub record Recommendation : Type 0 where
  pub item : Module
  pub rationale : String

abbrev pub recommended_with : Module → Option String → List Recommendation
recommended_with m none = []
recommended_with m (some rationale) = record { item = m; rationale = rationale } ∷ []

-- The modules of a list that a function has a rationale for.
abbrev pub recommended : (String → Option String) → List Module → List Recommendation
recommended reason [] = []
recommended reason (m ∷ ms) = recommended_with m (reason m.key) ++ recommended reason ms

unfoldable pub recommend_modules : Intake → List Recommendation
recommend_modules intake =
    let found =
      add_each (add_each (add_each [] (selections intake)) (matches intake)) (baseline intake) in
    recommended (λ key. reason_for key found) module_library

abbrev pub build_order : List String
build_order =
    "crm_intake" ∷ "scheduling" ∷ "field_reporting" ∷ "document_analysis" ∷ "permitting"
    ∷ "compliance_review" ∷ "accounting_job_costing" ∷ "ai_receptionist" ∷ "ai_project_coordinator"
    ∷ "reporting_dashboard" ∷ "client_portal" ∷ []

pub record BuildStep : Type 0 where
  pub order : ℕ
  pub module_key : String
  pub action : String
  pub replaces : String

-- `MODULE_BY_KEY.get(key).name`, of keys that are in the library.
abbrev name_of : Option Module → String
name_of none = ""
name_of (some m) = m.name

abbrev replaced_by : Option Module → String
replaced_by none = ""
replaced_by (some m) = m.replaces

unfoldable pub number_steps : ℕ → List String → List BuildStep
number_steps index [] = []
number_steps index (key ∷ keys) =
    record {
      order = index + 1;
      module_key = key;
      action = "Provision staged " ⧺ name_of (module_by_key key);
      replaces = replaced_by (module_by_key key);
    }
    ∷ number_steps (index + 1) keys

abbrev pub module_keys : List Recommendation → List String
module_keys [] = []
module_keys (r ∷ rs) = r.item.key ∷ module_keys rs

abbrev pub category_keys : String → List Recommendation → List String
category_keys category rs = module_keys (keep (λ r. r.item.category === category) rs)

unfoldable pub next_build_steps : List Recommendation → List BuildStep
unfolding number_steps
next_build_steps modules =
    number_steps 0 (keep (λ key. includes (module_keys modules) key) build_order)

abbrev joined_names : List Recommendation → String
joined_names [] = ""
joined_names (r ∷ []) = r.item.name
joined_names (r ∷ s ∷ rs) = r.item.name ⧺ ", " ⧺ joined_names (s ∷ rs)

-- The specs of portal, dashboard, agents, reporting and integrations are the fields below `modules`.
pub record Blueprint : Type 0 where
  pub id : String
  pub blueprint_id : String
  pub tenant_id : String
  pub business_name : String
  pub industry : String
  pub intake : Intake
  pub recommended_modules : List Recommendation
  pub portal_modules : List String
  pub portal_requirements : Values
  pub portal_branded : Bool
  pub dashboard_widgets : Values
  pub includes_reporting_dashboard : Bool
  pub agents : List String
  pub agent_requirements : Values
  pub reporting_needs : Values
  pub includes_document_analysis : Bool
  pub requested_integrations : Values
  pub integration_status : String
  pub next_build_steps : List BuildStep
  pub summary : String
  pub staged : Bool

abbrev summary_of : Intake → List Recommendation → List BuildStep → String
summary_of intake modules steps =
    "Staged platform blueprint for "
    ⧺ intake.business_name
    ⧺ " ("
    ⧺ intake.industry
    ⧺ "): "
    ⧺ decimal (length modules)
    ⧺ " recommended module(s) — "
    ⧺ joined_names modules
    ⧺ ". "
    ⧺ decimal (length steps)
    ⧺ " build step(s) planned. SIMULATED — no live deployment."

unfoldable pub blueprint_of : Intake → List Recommendation → Blueprint
blueprint_of intake modules = record {
  id = intake.id;
  blueprint_id = intake.id;
  tenant_id = intake.tenant_id;
  business_name = intake.business_name;
  industry = intake.industry;
  intake = intake;
  recommended_modules = modules;
  portal_modules = category_keys "customer_experience" modules;
  portal_requirements = intake.portal_requirements;
  portal_branded = true;
  dashboard_widgets = intake.dashboard_requirements;
  includes_reporting_dashboard = includes (module_keys modules) "reporting_dashboard";
  agents = category_keys "ai_agent" modules;
  agent_requirements = intake.ai_agent_requirements;
  reporting_needs = intake.document_reporting_needs;
  includes_document_analysis = includes (module_keys modules) "document_analysis";
  requested_integrations = intake.integration_needs;
  integration_status = "staged_mock_only";
  next_build_steps = next_build_steps modules;
  summary = summary_of intake modules (next_build_steps modules);
  staged = true;
}

unfoldable pub generate_platform_blueprint : Value → Result Blueprint
generate_platform_blueprint input = do
  intake ← create_blueprint_intake input
  ok (blueprint_of intake (recommend_modules intake))
