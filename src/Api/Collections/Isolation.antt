-- ===== src/Api/Collections/Isolation.antt =====
-- What a write to a collection does to the lists of the tenants: `collectionResources` and
-- `handleCollectionCreate` of apps/api/src/handlers.js over the repository of
-- apps/api/src/repositories/memory.js.
use mathlib.Core.Path.{fun_ext}
use xygo_aec.Base.{
  String, Bool, true, false, not, List, map, keep, Option, none, some, ok, ◌===◌, if◌then◌else◌,
  Value, ◌≡◌, ◌⊎◌, inl, inr, refl, sym, ap, ◌∙◌, subst, eq_of_===,
}
use xygo_aec.Contracts
use xygo_aec.Coordination
use xygo_aec.Permits
use xygo_aec.Projects
use xygo_aec.FieldReporting
use xygo_aec.AiReview
use xygo_aec.AiReview.{ReviewRun, Finding}
use xygo_aec.Blueprints
use xygo_aec.Contracts.{Project}
use xygo_aec.Coordination.{Issue, Rfi}
use xygo_aec.Permits.{PermitPackage}
use xygo_aec.Projects.{ReviewSession}
use xygo_aec.Blueprints.{Blueprint}
use xygo_aec.FieldReporting.{FieldReport}
use xygo_aec.Repositories.{
  Repository, Item, project, issue, rfi, permit, review_session, ai_review_run, ai_finding,
  platform_blueprint, field_report,
}
use xygo_aec.Repositories.Maps.{get, has, is_some, set, values, get-set}
use xygo_aec.Repositories.Memory.{as_staged, run_is_of, permit_input}
use xygo_aec.Api.Collections.{Created}
use xygo_aec.Api.Collections.Table.{
  Segment, projects, issues, rfis, permits, review_sessions, ai_review_runs, ai_findings,
  platform_blueprints, field_reports, create_in_collection, list_collection, build_collection,
  guard_collection, refuse_if, by_value,
}
use xygo_aec.Api.Collections.Tenants
use xygo_aec.Api.Collections.Tenants.{Ensures-ok}
use xygo_aec.Api.Collections.Listing.{created_inversion}
use xygo_aec.Api.Collections.Adding.{Added, add_lem, is_mine, is_not_theirs}

-- A new run of the tenant makes no finding visible to another tenant.
run_is_of-set :
    (runs : List (String × ReviewRun)) (x : ReviewRun) (u : String)
    → has x.id runs ≡ false
    → (x.tenant_id === u) ≡ false
    → (key : String) → run_is_of u (get key (set x.id x runs)) ≡ run_is_of u (get key runs)
run_is_of-set runs x u free far key =
    ap (run_is_of u) (get-set x.id x runs key) ∙ by_test (x.id === key) refl
  where
    none_there : (o : Option ReviewRun) → is_some o ≡ false → false ≡ run_is_of u o
    none_there none h = refl
    none_there (some y) h = cc

    by_test :
        (b : Bool)
        → (x.id === key) ≡ b
        → run_is_of u (if b then some x else get key runs) ≡ run_is_of u (get key runs)
    by_test false e = refl
    by_test true e =
        far
        ∙ subst (λ k. false ≡ run_is_of u (get k runs)) (eq_of_=== x.id key e)
            (none_there (get x.id runs) free)

-- Who owns a run owns it alone.
run_is_of-one :
    (t u : String) (o : Option ReviewRun)
    → run_is_of t o ≡ true
    → (t === u) ≡ false
    → run_is_of u o ≡ false
run_is_of-one t u none h far = cc
run_is_of-one t u (some run) h far =
    subst (λ w. (w === u) ≡ false) (sym (eq_of_=== run.tenant_id t h)) far

refuse_if-none : (b : Bool) (m : String) → refuse_if (not b) m ≡ none → b ≡ true
refuse_if-none true m h = refl
refuse_if-none false m h = cc

module _ (r r' : Repository) (parsed : Value) (t : String) (c : Created Item) where
  projects-Added :
      create_in_collection projects r (build_collection projects parsed t) ≡ ok (r', c)
      → Added projects r r' t c.item
  unfolding create_in_collection list_collection
  projects-Added h =
      let built = Contracts.create_project (as_staged (build_collection projects parsed t)) in
      let (x, i, e) =
        created_inversion project built (λ y. y.id) r.projects (λ es. record r { projects = es }) _
          r' c h in
      let of = Ensures-ok built x (Tenants.create_project-tenant _) i.made in
      add_lem projects project (λ u y. y.tenant_id === u) (λ y. y.id) built r.projects
        (λ es. record r { projects = es }) r r' t (λ es u. refl) (λ u. refl) x c.item i e
        (is_mine t x.tenant_id of) (is_not_theirs t x.tenant_id of)
        (λ s' u far. apart (set x.id x r.projects) s' u)
    where
      apart :
          (es : List (String × Project)) (s' : Segment) (u : String)
          → (s' ≡ projects)
            ⊎ (list_collection s' (record r { projects = es }) u ≡ list_collection s' r u)
      apart es projects u = inl refl
      apart es _ u = inr refl

  issues-Added :
      create_in_collection issues r (build_collection issues parsed t) ≡ ok (r', c)
      → Added issues r r' t c.item
  unfolding create_in_collection list_collection
  issues-Added h =
      let built =
        Coordination.create_coordination_issue (as_staged (build_collection issues parsed t)) in
      let (x, i, e) =
        created_inversion issue built (λ y. y.id) r.issues (λ es. record r { issues = es }) _ r' c
          h in
      let of = Ensures-ok built x (Tenants.create_coordination_issue-tenant _) i.made in
      add_lem issues issue (λ u y. y.tenant_id === u) (λ y. y.id) built r.issues
        (λ es. record r { issues = es }) r r' t (λ es u. refl) (λ u. refl) x c.item i e
        (is_mine t x.tenant_id of) (is_not_theirs t x.tenant_id of)
        (λ s' u far. apart (set x.id x r.issues) s' u)
    where
      apart :
          (es : List (String × Issue)) (s' : Segment) (u : String)
          → (s' ≡ issues)
            ⊎ (list_collection s' (record r { issues = es }) u ≡ list_collection s' r u)
      apart es issues u = inl refl
      apart es _ u = inr refl

  rfis-Added :
      create_in_collection rfis r (build_collection rfis parsed t) ≡ ok (r', c)
      → Added rfis r r' t c.item
  unfolding create_in_collection list_collection
  rfis-Added h =
      let built = Coordination.create_rfi (as_staged (build_collection rfis parsed t)) in
      let (x, i, e) =
        created_inversion rfi built (λ y. y.id) r.rfis (λ es. record r { rfis = es }) _ r' c h in
      let of = Ensures-ok built x (Tenants.create_rfi-tenant _) i.made in
      add_lem rfis rfi (λ u y. y.tenant_id === u) (λ y. y.id) built r.rfis
        (λ es. record r { rfis = es }) r r' t (λ es u. refl) (λ u. refl) x c.item i e
        (is_mine t x.tenant_id of) (is_not_theirs t x.tenant_id of)
        (λ s' u far. apart (set x.id x r.rfis) s' u)
    where
      apart :
          (es : List (String × Rfi)) (s' : Segment) (u : String)
          → (s' ≡ rfis) ⊎ (list_collection s' (record r { rfis = es }) u ≡ list_collection s' r u)
      apart es rfis u = inl refl
      apart es _ u = inr refl

  permits-Added :
      create_in_collection permits r (build_collection permits parsed t) ≡ ok (r', c)
      → Added permits r r' t c.item
  unfolding create_in_collection list_collection
  permits-Added h =
      let built =
        Permits.create_permit_package
          (permit_input (as_staged (build_collection permits parsed t))) in
      let (x, i, e) =
        created_inversion permit built (λ y. y.id) r.permits (λ es. record r { permits = es }) _ r'
          c h in
      let of = Ensures-ok built x (Tenants.create_permit_package-tenant _) i.made in
      add_lem permits permit (λ u y. y.tenant_id === u) (λ y. y.id) built r.permits
        (λ es. record r { permits = es }) r r' t (λ es u. refl) (λ u. refl) x c.item i e
        (is_mine t x.tenant_id of) (is_not_theirs t x.tenant_id of)
        (λ s' u far. apart (set x.id x r.permits) s' u)
    where
      apart :
          (es : List (String × PermitPackage)) (s' : Segment) (u : String)
          → (s' ≡ permits)
            ⊎ (list_collection s' (record r { permits = es }) u ≡ list_collection s' r u)
      apart es permits u = inl refl
      apart es _ u = inr refl

  review_sessions-Added :
      create_in_collection review_sessions r (build_collection review_sessions parsed t)
        ≡ ok (r', c)
      → Added review_sessions r r' t c.item
  unfolding create_in_collection list_collection
  review_sessions-Added h =
      let built =
        Projects.create_review_session (as_staged (build_collection review_sessions parsed t)) in
      let (x, i, e) =
        created_inversion review_session built (λ y. y.id) r.review_sessions
          (λ es. record r { review_sessions = es }) _ r' c h in
      let of = Ensures-ok built x (Tenants.create_review_session-tenant _) i.made in
      add_lem review_sessions review_session (λ u y. y.tenant_id === u) (λ y. y.id) built
        r.review_sessions (λ es. record r { review_sessions = es }) r r' t (λ es u. refl)
        (λ u. refl) x c.item i e (is_mine t x.tenant_id of) (is_not_theirs t x.tenant_id of)
        (λ s' u far. apart (set x.id x r.review_sessions) s' u)
    where
      apart :
          (es : List (String × ReviewSession)) (s' : Segment) (u : String)
          → (s' ≡ review_sessions)
            ⊎ (list_collection s' (record r { review_sessions = es }) u ≡ list_collection s' r u)
      apart es review_sessions u = inl refl
      apart es _ u = inr refl

  platform_blueprints-Added :
      create_in_collection platform_blueprints r (build_collection platform_blueprints parsed t)
        ≡ ok (r', c)
      → Added platform_blueprints r r' t c.item
  unfolding create_in_collection list_collection
  platform_blueprints-Added h =
      let built =
        Blueprints.generate_platform_blueprint
          (as_staged (build_collection platform_blueprints parsed t)) in
      let (x, i, e) =
        created_inversion platform_blueprint built (λ y. y.id) r.platform_blueprints
          (λ es. record r { platform_blueprints = es }) _ r' c h in
      let of = Ensures-ok built x (Tenants.generate_platform_blueprint-tenant _) i.made in
      add_lem platform_blueprints platform_blueprint (λ u y. y.tenant_id === u) (λ y. y.id) built
        r.platform_blueprints (λ es. record r { platform_blueprints = es }) r r' t (λ es u. refl)
        (λ u. refl) x c.item i e (is_mine t x.tenant_id of) (is_not_theirs t x.tenant_id of)
        (λ s' u far. apart (set x.id x r.platform_blueprints) s' u)
    where
      apart :
          (es : List (String × Blueprint)) (s' : Segment) (u : String)
          → (s' ≡ platform_blueprints)
            ⊎ (list_collection s' (record r { platform_blueprints = es }) u
                ≡ list_collection s' r u)
      apart es platform_blueprints u = inl refl
      apart es _ u = inr refl

  field_reports-Added :
      create_in_collection field_reports r (build_collection field_reports parsed t) ≡ ok (r', c)
      → Added field_reports r r' t c.item
  unfolding create_in_collection list_collection
  field_reports-Added h =
      let built =
        FieldReporting.create_field_report (as_staged (build_collection field_reports parsed t)) in
      let (x, i, e) =
        created_inversion field_report built (λ y. y.id) r.field_reports
          (λ es. record r { field_reports = es }) _ r' c h in
      let of = Ensures-ok built x (Tenants.create_field_report-tenant _) i.made in
      add_lem field_reports field_report (λ u y. y.tenant_id === u) (λ y. y.id) built
        r.field_reports (λ es. record r { field_reports = es }) r r' t (λ es u. refl) (λ u. refl) x
        c.item i e (is_mine t x.tenant_id of) (is_not_theirs t x.tenant_id of)
        (λ s' u far. apart (set x.id x r.field_reports) s' u)
    where
      apart :
          (es : List (String × FieldReport)) (s' : Segment) (u : String)
          → (s' ≡ field_reports)
            ⊎ (list_collection s' (record r { field_reports = es }) u ≡ list_collection s' r u)
      apart es field_reports u = inl refl
      apart es _ u = inr refl

  ai_review_runs-Added :
      create_in_collection ai_review_runs r (build_collection ai_review_runs parsed t) ≡ ok (r', c)
      → Added ai_review_runs r r' t c.item
  unfolding create_in_collection list_collection
  ai_review_runs-Added h =
      let built =
        AiReview.create_review_run (as_staged (build_collection ai_review_runs parsed t)) in
      let (x, i, e) =
        created_inversion ai_review_run built (λ y. y.id) r.ai_review_runs
          (λ es. record r { ai_review_runs = es }) _ r' c h in
      let of = Ensures-ok built x (Tenants.create_review_run-tenant _) i.made in
      add_lem ai_review_runs ai_review_run (λ u y. y.tenant_id === u) (λ y. y.id) built
        r.ai_review_runs (λ es. record r { ai_review_runs = es }) r r' t (λ es u. refl) (λ u. refl)
        x c.item i e (is_mine t x.tenant_id of) (is_not_theirs t x.tenant_id of)
        (λ s' u far. apart x i.free s' u (is_not_theirs t x.tenant_id of u far))
    where
      apart :
          (x : ReviewRun)
          → has x.id r.ai_review_runs ≡ false
          → (s' : Segment) (u : String) → (x.tenant_id === u) ≡ false
          → (s' ≡ ai_review_runs)
            ⊎ (list_collection s' (record r { ai_review_runs = set x.id x r.ai_review_runs }) u
                ≡ list_collection s' r u)
      apart x free ai_review_runs u far = inl refl
      apart x free ai_findings u far = inr (
          ap (λ p. map ai_finding (keep p (values r.ai_findings)))
            (fun_ext (λ f. run_is_of-set r.ai_review_runs x u free far f.review_run_id)))
      apart x free _ u far = inr refl

  ai_findings-Added :
      guard_collection ai_findings parsed t r ≡ none
      → create_in_collection ai_findings r (build_collection ai_findings parsed t) ≡ ok (r', c)
      → Added ai_findings r r' t c.item
  unfolding create_in_collection list_collection guard_collection
  ai_findings-Added guarded h =
      let built = AiReview.create_finding (as_staged (build_collection ai_findings parsed t)) in
      let (x, i, e) =
        created_inversion ai_finding built (λ y. y.id) r.ai_findings
          (λ es. record r { ai_findings = es }) _ r' c h in
      let of = Ensures-ok built x (Tenants.create_finding-review_run _) i.made in
      let mine : run_is_of t (get x.review_run_id r.ai_review_runs) ≡ true =
        subst (λ v. run_is_of t (by_value (λ id. get id r.ai_review_runs) v) ≡ true) of
          (refuse_if-none _ _ guarded) in
      add_lem ai_findings ai_finding (λ u y. run_is_of u (get y.review_run_id r.ai_review_runs))
        (λ y. y.id) built r.ai_findings (λ es. record r { ai_findings = es }) r r' t (λ es u. refl)
        (λ u. refl) x c.item i e mine
        (λ u far. run_is_of-one t u (get x.review_run_id r.ai_review_runs) mine far)
        (λ s' u far. apart (set x.id x r.ai_findings) s' u)
    where
      apart :
          (es : List (String × Finding)) (s' : Segment) (u : String)
          → (s' ≡ ai_findings)
            ⊎ (list_collection s' (record r { ai_findings = es }) u ≡ list_collection s' r u)
      apart es ai_findings u = inl refl
      apart es _ u = inr refl

  -- A record that the table creates, behind its guard.
  pub create_in_collection-Added :
      (s : Segment)
      → guard_collection s parsed t r ≡ none
      → create_in_collection s r (build_collection s parsed t) ≡ ok (r', c)
      → Added s r r' t c.item
  create_in_collection-Added projects g h = projects-Added h
  create_in_collection-Added issues g h = issues-Added h
  create_in_collection-Added rfis g h = rfis-Added h
  create_in_collection-Added permits g h = permits-Added h
  create_in_collection-Added review_sessions g h = review_sessions-Added h
  create_in_collection-Added ai_review_runs g h = ai_review_runs-Added h
  create_in_collection-Added ai_findings g h = ai_findings-Added g h
  create_in_collection-Added platform_blueprints g h = platform_blueprints-Added h
  create_in_collection-Added field_reports g h = field_reports-Added h
