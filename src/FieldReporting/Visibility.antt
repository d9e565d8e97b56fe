-- ===== src/FieldReporting/Visibility.antt =====
-- Runs of the operations on a report of packages/field-reporting/src/index.js: when a client sees it.
use xygo_aec.Base.{
  String, Bool, true, false, not, ◌&&◌, List, [], ◌∷◌, Option, none, some, Result, ok, ◌>>=◌,
  includes, ◌===◌, ◌⧺◌, Value, ◌≡◌, refl, ap, sym, ◌∙◌, subst, arith, bind_inversion, ok-injective,
  throw_if-bind, not-eq_false,
}
use xygo_aec.FieldReporting.{
  reviewable_next, FieldReport, draft_of, generate_report_draft, set_review_status, has_draft,
  to_client_view,
}

-- A call on a report.
pub data Step : Type 0 where
  generate : Step
  review : String → Value → Value → Step

unfoldable pub apply_step : FieldReport → Step → Result FieldReport
apply_step r generate = generate_report_draft r
apply_step r (review next reviewed_by review_note) =
    set_review_status r next reviewed_by review_note

-- Calls one after another; the first that throws ends the run.
unfoldable pub run_report : FieldReport → List Step → Result FieldReport
unfolding apply_step
run_report r [] = ok r
run_report r (s ∷ ss) = apply_step r s >>= λ q. run_report q ss

abbrev approves : Step → Bool
approves generate = false
approves (review next reviewed_by review_note) = next === "approved"

-- Whether the last call was an approval; without calls it is as `before`.
abbrev pub ends_approved : Bool → List Step → Bool
ends_approved before [] = before
ends_approved before (s ∷ ss) = ends_approved (approves s) ss

-- What a client can see of a report.
abbrev pub is_released : FieldReport → Bool
is_released r = r.client_visible && (r.status === "approved")

-- A released report has a draft and was approved; one that is visible has a draft.
pub record IsReviewed (r : FieldReport) : Type 0 where
  pub drafted : r.client_visible ≡ true → has_draft r.draft ≡ true
  pub visible : (r.status === "approved") ≡ true → r.client_visible ≡ true

twice : (b : Bool) → (b && b) ≡ b
twice b = ground arith

hidden_status : (b : Bool) → (b && ("draft_generated" === "approved")) ≡ false
hidden_status b = ground arith

generate_report_draft-is_released :
    (r q : FieldReport) → generate_report_draft r ≡ ok q → (is_released q ≡ false) × IsReviewed q
unfolding generate_report_draft
generate_report_draft-is_released r q h =
    let (staged, h1) = throw_if-bind (not r.staged) "A staged field report is required." _ h in
    subst (λ x. (is_released x ≡ false) × IsReviewed x)
      {x = record r { draft = some (draft_of r); status = "draft_generated" }} (ok-injective h1)
      (hidden_status r.client_visible, record { drafted = λ v. refl; visible = λ e. cc })

set_review_status-is_released :
    (r : FieldReport) (next : String) (reviewed_by review_note : Value) (q : FieldReport)
    → set_review_status r next reviewed_by review_note ≡ ok q
    → (is_released q ≡ (next === "approved")) × IsReviewed q
unfolding set_review_status
set_review_status-is_released r next reviewed_by review_note q h =
    let (staged, h1) = throw_if-bind (not r.staged) "A staged field report is required." _ h in
    let (known, h2) =
      throw_if-bind (not (includes reviewable_next next)) ("Unknown review status: " ⧺ next) _ h1 in
    let (drafted, h3) =
      throw_if-bind (not (has_draft r.draft)) "A report draft must be generated before review." _
        h2 in
    subst (λ x. (is_released x ≡ (next === "approved")) × IsReviewed x)
      {x = record r {
        status = next;
        reviewed_by = reviewed_by;
        review_note = review_note;
        client_visible = next === "approved";
      }}
      (ok-injective h3)
      (
        twice (next === "approved"),
        record { drafted = λ v. not-eq_false _ drafted; visible = λ e. e },
      )

apply_step_sound :
    (r : FieldReport) (s : Step) (q : FieldReport)
    → apply_step r s ≡ ok q
    → (is_released q ≡ approves s) × IsReviewed q
unfolding apply_step
apply_step_sound r generate q h = generate_report_draft-is_released r q h
apply_step_sound r (review next reviewed_by review_note) q h =
    set_review_status-is_released r next reviewed_by review_note q h

run_report-is_released :
    (r q : FieldReport) (ss : List Step)
    → IsReviewed r
    → run_report r ss ≡ ok q
    → (is_released q ≡ ends_approved (is_released r) ss) × IsReviewed q
unfolding run_report
run_report-is_released r q [] reviewed h =
    subst (λ x. (is_released x ≡ is_released r) × IsReviewed x) (ok-injective h) (refl, reviewed)
run_report-is_released r q (s ∷ ss) reviewed h =
    let (r', made, rest) = bind_inversion (apply_step r s) _ h in
    let (released, kept) = apply_step_sound r s r' made in
    let (end, all) = run_report-is_released r' q ss kept rest in
    (end ∙ ap (λ b. ends_approved b ss) released, all)

abbrev pub is_some {ℓ} : {A : Type ℓ} → Option A → Bool
is_some none = false
is_some (some a) = true

is_some-to_client_view : (r : FieldReport) → is_some (to_client_view r) ≡ is_released r
unfolding to_client_view
is_some-to_client_view r = ground arith

released-drafted :
    (visible approved drafted : Bool)
    → (visible ≡ true → drafted ≡ true)
    → (visible && approved) ≡ true
    → drafted ≡ true
released-drafted visible approved drafted h e = h (ground arith)

IsReviewed-hidden :
    (r : FieldReport) → r.client_visible ≡ false → (r.status === "approved") ≡ false → IsReviewed r
IsReviewed-hidden r hidden pending = record {
  drafted = λ v. absurd (cc (v, hidden));
  visible = λ e. absurd (cc (e, pending));
}

-- After any calls on a report that is neither visible nor approved, as a new one is, the client sees it
-- exactly if the last call was an approval, and then it has a draft: no draft that was generated after
-- the approval is seen before the next one.
pub to_client_view-run_report :
    (r q : FieldReport) (ss : List Step)
    → r.client_visible ≡ false
    → (r.status === "approved") ≡ false
    → run_report r ss ≡ ok q
    → (is_some (to_client_view q) ≡ ends_approved false ss)
      × (is_some (to_client_view q) ≡ true → has_draft q.draft ≡ true)
to_client_view-run_report r q ss hidden pending h =
    let (released, kept) = run_report-is_released r q ss (IsReviewed-hidden r hidden pending) h in
    let seen = is_some-to_client_view q in
    (
      seen ∙ released ∙ ap (λ b. ends_approved (b && (r.status === "approved")) ss) hidden,
      λ e.
          released-drafted q.client_visible (q.status === "approved") _ kept.drafted (sym seen ∙ e),
    )
