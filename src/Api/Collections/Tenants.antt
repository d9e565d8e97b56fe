-- ===== src/Api/Collections/Tenants.antt =====
-- The tenant of a record that the packages make is the text that their input gave for it.
use xygo_aec.Base.{
  String, Failure, Result, ok, err, ◌>>=◌, Value, str, member, required_string,
  required_string-eq-ok, ◌≡◌, refl, subst, ok-injective,
}
use xygo_aec.Contracts
use xygo_aec.Coordination
use xygo_aec.Coordination.{create_coordination_issue}
use xygo_aec.Permits
use xygo_aec.Permits.{PermitInput}
use xygo_aec.Projects
use xygo_aec.AiReview.{create_review_run, create_finding}
use xygo_aec.FieldReporting
use xygo_aec.Blueprints.{
  Intake, create_blueprint_intake, recommend_modules, blueprint_of, generate_platform_blueprint,
}

-- Whatever a computation gives has the property.
pub data Ensures {B : Type 0} (P : B → Type 0) : Result B → Type 0 where
  threw : (e : Failure) → Ensures P (err e)
  gave : (b : B) → P b → Ensures P (ok b)

module _ {B : Type 0} {P : B → Type 0} where
  pub through :
      {A : Type 0} (m : Result A) (f : A → Result B)
      → ((a : A) → Ensures P (f a))
      → Ensures P (m >>= f)
  through (err e) f h = threw e
  through (ok a) f h = h a

  pub Ensures-ok : (m : Result B) (b : B) → Ensures P m → m ≡ ok b → P b
  Ensures-ok m b (threw e) h = cc
  Ensures-ok m b (gave a p) h = subst P (ok-injective h) p

  -- What the second of two required texts becomes.
  pub after_texts :
      (v w : Value) (l k : String) (f : String → String → Result B)
      → ((s t : String) → w ≡ str t → Ensures P (f s t))
      → Ensures P (required_string v l >>= λ s. required_string w k >>= λ t. f s t)
  after_texts v w l k f h = through _ _ (λ s. second s (required_string w k) refl)
    where
      second :
          (s : String) (m : Result String) → required_string w k ≡ m → Ensures P (m >>= λ t. f s t)
      second s (err e) e' = threw e
      second s (ok t) e' = h s t ((required_string-eq-ok w k t).0 e').0

-- The member of the input is the text that the record has.
abbrev pub Carries : {B : Type 0} → Value → String → (B → String) → B → Type 0
Carries v key text_of b = member v key ≡ str (text_of b)

pub create_project-tenant :
    (v : Value) → Ensures (Carries v "tenantId" (λ p. p.tenant_id)) (Contracts.create_project v)
unfolding Contracts.create_project
create_project-tenant v = after_texts _ _ _ _ _ λ id t e. search (through, gave) depth 9

pub create_coordination_issue-tenant :
    (v : Value) → Ensures (Carries v "tenantId" (λ i. i.tenant_id)) (create_coordination_issue v)
unfolding create_coordination_issue
create_coordination_issue-tenant v = after_texts _ _ _ _ _ λ id t e. search (through, gave) depth 9

pub create_rfi-tenant :
    (v : Value) → Ensures (Carries v "tenantId" (λ i. i.tenant_id)) (Coordination.create_rfi v)
unfolding Coordination.create_rfi
create_rfi-tenant v = after_texts _ _ _ _ _ λ id t e. search (through, gave) depth 9

pub create_review_session-tenant :
    (v : Value)
    → Ensures (Carries v "tenantId" (λ s. s.tenant_id)) (Projects.create_review_session v)
unfolding Projects.create_review_session
create_review_session-tenant v = after_texts _ _ _ _ _ λ id t e. search (through, gave) depth 9

pub create_review_run-tenant :
    (v : Value) → Ensures (Carries v "tenantId" (λ run. run.tenant_id)) (create_review_run v)
unfolding create_review_run
create_review_run-tenant v = after_texts _ _ _ _ _ λ id t e. search (through, gave) depth 9

pub create_finding-review_run :
    (v : Value) → Ensures (Carries v "reviewRunId" (λ f. f.review_run_id)) (create_finding v)
unfolding create_finding
create_finding-review_run v = after_texts _ _ _ _ _ λ id t e. search (through, gave) depth 9

pub create_field_report-tenant :
    (v : Value)
    → Ensures (Carries v "tenantId" (λ f. f.tenant_id)) (FieldReporting.create_field_report v)
unfolding FieldReporting.create_field_report
create_field_report-tenant v = after_texts _ _ _ _ _ λ id t e. search (through, gave) depth 9

pub create_permit_package-tenant :
    (i : PermitInput)
    → Ensures (Carries i.fields "tenantId" (λ p. p.tenant_id)) (Permits.create_permit_package i)
unfolding Permits.create_permit_package
create_permit_package-tenant i = after_texts _ _ _ _ _ λ id t e. search (through, gave) depth 9

create_blueprint_intake-tenant :
    (v : Value) → Ensures (Carries v "tenantId" (λ i. i.tenant_id)) (create_blueprint_intake v)
unfolding create_blueprint_intake
create_blueprint_intake-tenant v = after_texts _ _ _ _ _ λ id t e. search (through, gave) depth 9

pub generate_platform_blueprint-tenant :
    (v : Value) → Ensures (Carries v "tenantId" (λ b. b.tenant_id)) (generate_platform_blueprint v)
unfolding generate_platform_blueprint blueprint_of
generate_platform_blueprint-tenant v =
    generated (create_blueprint_intake v) (create_blueprint_intake-tenant v)
  where
    generated :
        (m : Result Intake)
        → Ensures (Carries v "tenantId" (λ i. i.tenant_id)) m
        → Ensures
            (Carries v "tenantId" (λ b. b.tenant_id))
            (m >>= λ intake. ok (blueprint_of intake (recommend_modules intake)))
    generated m (threw e) = threw e
    generated m (gave i p) = gave (blueprint_of i (recommend_modules i)) p
