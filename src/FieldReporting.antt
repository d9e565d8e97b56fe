-- ===== src/FieldReporting.antt =====
-- packages/field-reporting/src/index.js: reports from a site, their draft, their review and what the
-- client sees of them.
pub mod Visibility
use xygo_aec.Base.{
  ℕ, zero, suc, ◌+◌, String, Bool, true, false, not, ◌&&◌, ◌||◌, List, [], ◌∷◌, map, keep, length,
  Option, none, some, Result, ok, ◌>>=◌, ◌>>◌, throw, throw_if, includes, ◌⧺◌, ◌===◌, decimal,
  if◌then◌else◌, Value, Values, nil, cons, null, str, arr, member, is_true, shown, set_has,
  ◌or_else◌, required_string,
}

abbrev pub report_types : List String
report_types = "daily_log" ∷ "inspection" ∷ "safety" ∷ "progress" ∷ []

abbrev pub reviewable_next : List String
reviewable_next = "in_review" ∷ "approved" ∷ "changes_requested" ∷ []

pub data Observation : Type 0 where
  note : String → Observation
  photo : String → Value → Observation
  checklist : String → Bool → Observation
  voice : String → Observation

-- `String(value ?? "")`
abbrev pub text_or_empty : Value → String
text_or_empty v = shown (v or_else str "")

unfoldable pub normalize_observation : Value → ℕ → Result Observation
normalize_observation o index =
    let kind = member o "kind" in
    if set_has ("note" ∷ []) kind
    then ok (note (text_or_empty (member o "text")))
    else if set_has ("photo" ∷ []) kind
    then ok (photo (text_or_empty (member o "caption")) (member o "placeholderRef" or_else null))
    else if set_has ("checklist" ∷ []) kind
    then ok (checklist (text_or_empty (member o "label")) (is_true (member o "checked")))
    else if set_has ("voice" ∷ []) kind
    then ok (voice (text_or_empty (member o "transcriptPlaceholder")))
    else throw ("Observation " ⧺ decimal index ⧺ " has an unknown kind.")

-- `observations.map(normalizeObservation)`
unfoldable pub normalize_observations : ℕ → Values → Result (List Observation)
unfolding normalize_observation
normalize_observations index nil = ok []
normalize_observations index (cons v vs) = normalize_observation v index >>= λ o.
    normalize_observations (index + 1) vs >>= λ os. ok (o ∷ os)

abbrev elements : Value → Values
elements (arr vs) = vs
elements _ = nil

pub data Section : Type 0 where
  body_section : String → String → Section
  items_section : String → List String → Section

pub record Draft : Type 0 where
  pub title : String
  pub sections : List Section
  pub ai_generated : Bool
  pub simulated : Bool
  pub summary : String

pub record FieldReport : Type 0 where
  pub id : String
  pub tenant_id : String
  pub project_id : String
  pub site_name : String
  pub report_type : String
  pub author : String
  pub captured_at : Value
  pub observations : List Observation
  pub status : String
  pub draft : Option Draft
  pub reviewed_by : Value
  pub review_note : Value
  pub client_visible : Bool
  pub staged : Bool

unfoldable pub create_field_report : Value → Result FieldReport
unfolding normalize_observations
create_field_report input = do
  id ← required_string (member input "id") "Field report id"
  tenant_id ← required_string (member input "tenantId") "Field report tenantId"
  project_id ← required_string (member input "projectId") "Field report projectId"
  site_name ← required_string (member input "siteName") "Site name"
  report_type ← required_string (member input "reportType") "Report type"
  author ← required_string (member input "author") "Author"
  throw_if (not (includes report_types report_type)) ("Unknown report type: " ⧺ report_type)
  throw_if (not (is_true (member input "staged"))) "Field report must be staged."
  observations ← normalize_observations 0 (elements (member input "observations"))
  ok (record {
    id = id;
    tenant_id = tenant_id;
    project_id = project_id;
    site_name = site_name;
    report_type = report_type;
    author = author;
    captured_at = member input "capturedAt" or_else null;
    observations = observations;
    status = "captured";
    draft = none;
    reviewed_by = null;
    review_note = null;
    client_visible = false;
    staged = true;
  })

-- The texts without the empty ones, as `filter(Boolean)` leaves them.
abbrev nonempty : List String → List String
nonempty ts = keep (λ t. not (t === "")) ts

abbrev notes : List Observation → List String
notes [] = []
notes (note t ∷ os) = t ∷ notes os
notes (_ ∷ os) = notes os

abbrev photos : List Observation → List String
photos [] = []
photos (photo t r ∷ os) = t ∷ photos os
photos (_ ∷ os) = photos os

abbrev voices : List Observation → List String
voices [] = []
voices (voice t ∷ os) = t ∷ voices os
voices (_ ∷ os) = voices os

abbrev checks : List Observation → List String
checks [] = []
checks (checklist label checked ∷ os) =
    (label ⧺ ": " ⧺ (if checked then "complete" else "incomplete")) ∷ checks os
checks (_ ∷ os) = checks os

abbrev pub open_items : List Observation → ℕ
open_items [] = 0
open_items (checklist label checked ∷ os) =
    let rest = open_items os in if checked then rest else rest + 1
open_items (_ ∷ os) = open_items os

unfoldable pub draft_of : FieldReport → Draft
draft_of r =
    let summary =
      r.report_type
      ⧺ " report for "
      ⧺ r.site_name
      ⧺ " by "
      ⧺ r.author
      ⧺ ". "
      ⧺ decimal (length r.observations)
      ⧺ " observation(s); "
      ⧺ decimal (open_items r.observations)
      ⧺ " open checklist item(s). SIMULATED draft — requires human review before release." in
    record {
      title = r.report_type ⧺ " — " ⧺ r.site_name;
      sections =
          body_section "Summary" summary
          ∷ items_section "Notes" (nonempty (notes r.observations))
          ∷ items_section "Checklist" (checks r.observations)
          ∷ items_section "Photos" (nonempty (photos r.observations))
          ∷ items_section "Voice Notes" (nonempty (voices r.observations))
          ∷ [];
      ai_generated = true;
      simulated = true;
      summary = summary;
    }

unfoldable pub generate_report_draft : FieldReport → Result FieldReport
unfolding draft_of
generate_report_draft r = do
  throw_if (not r.staged) "A staged field report is required."
  ok (record r { draft = some (draft_of r); status = "draft_generated" })

abbrev pub has_draft : Option Draft → Bool
has_draft none = false
has_draft (some d) = true

-- What is left out of the options is null.
unfoldable pub set_review_status : FieldReport → String → Value → Value → Result FieldReport
set_review_status r next reviewed_by review_note = do
  throw_if (not r.staged) "A staged field report is required."
  throw_if (not (includes reviewable_next next)) ("Unknown review status: " ⧺ next)
  throw_if (not (has_draft r.draft)) "A report draft must be generated before review."
  ok (record r {
    status = next;
    reviewed_by = reviewed_by;
    review_note = review_note;
    client_visible = next === "approved";
  })

pub record ClientView : Type 0 where
  pub id : String
  pub site_name : String
  pub report_type : String
  pub title : String
  pub sections : List Section
  pub status : String
  pub staged : Bool

abbrev title_of : Option Draft → String → String
title_of none site_name = site_name
title_of (some d) site_name = d.title

abbrev sections_of : Option Draft → List Section
sections_of none = []
sections_of (some d) = d.sections

-- `none` for null.
unfoldable pub to_client_view : FieldReport → Option ClientView
to_client_view r =
    if not r.client_visible || not (r.status === "approved")
    then none
    else some (record {
      id = r.id;
      site_name = r.site_name;
      report_type = r.report_type;
      title = title_of r.draft r.site_name;
      sections = sections_of r.draft;
      status = "approved";
      staged = true;
    })
