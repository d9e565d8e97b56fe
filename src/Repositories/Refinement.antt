-- ===== src/Repositories/Refinement.antt =====
-- The repository of apps/api/src/repositories/memory.js does what its specification says.
use mathlib.Core.Path.{fun_ext}
use xygo_aec.Base.{
  String, Bool, true, false, not, List, [], ◌∷◌, ◌++◌, Option, none, some, Result, ok, err, ◌>>=◌,
  ◌>>◌, throw_if, Value, ◌≡◌, refl, ap, ◌∙◌,
}
use xygo_aec.AiReview.{Finding, set_human_disposition}
use xygo_aec.Repositories.{Repository, Item, ai_finding}
use xygo_aec.Repositories.Maps.{get, has, set, update, get-set}
use xygo_aec.Repositories.Memory
use xygo_aec.Repositories.Memory.{insert_new, found_or}
use xygo_aec.Repositories.Mail
use xygo_aec.Repositories.Specification.{
  Call, tagged, call, Lookup, Spec, view, claim, replace, spec_call, settled, run, spec_run,
}

abbrev viewed : Result (Repository × Item) → Result (Spec × Item)
viewed (err e) = err e
viewed (ok (r, i)) = ok (view r, i)

module _ {A : Type 0} (tag : A → Item) (store : List (String × A))
    (into : List (String × A) → Repository) (into_spec : Lookup A → Spec)
    (same : (es : List (String × A)) → view (into es) ≡ into_spec (λ id. get id es)) where
  set-update :
      (id : String) (a : A)
      → view (into (set id a store)) ≡ into_spec (update (λ k. get k store) id a)
  set-update id a = same (set id a store) ∙ ap into_spec (fun_ext (get-set id a store))

  insert_new-claim :
      (message id : String) (a : A) (taken : Bool)
      → has id store ≡ taken
      → viewed (tagged tag (insert_new message id a store >>= λ es. ok (into es, a)))
        ≡ (claim message id a (λ k. get k store) >>= λ f. ok (into_spec f, tag a))
  unfolding insert_new
  insert_new-claim message id a true h = rw h refl
  insert_new-claim message id a false h = rw h (ap (λ s. ok (s, tag a)) (set-update id a))

  -- A constructor, and the record that it made under a new id.
  created_refines :
      (message : String) (id_of : A → String) (built : Result A)
      → viewed (
          tagged tag (
            built >>= λ made.
            insert_new message (id_of made) made store >>= λ es. ok (into es, made)))
        ≡ (built >>= λ made.
            claim message (id_of made) made (λ k. get k store) >>= λ f. ok (into_spec f, tag made))
  created_refines message id_of (err e) = refl
  created_refines message id_of (ok made) = insert_new-claim message (id_of made) made _ refl

  replaced_refines :
      (message id : String) (a : A) (there : Bool)
      → has id store ≡ there
      → viewed (tagged tag (throw_if (not (has id store)) message >> ok (into (set id a store), a)))
        ≡ (replace message id a (λ k. get k store) >>= λ f. ok (into_spec f, tag a))
  replaced_refines message id a true h = rw h (ap (λ s. ok (s, tag a)) (set-update id a))
  replaced_refines message id a false h = rw h refl

module _ (r : Repository) where
  disposition_refines :
      (id next : String) (related : Value) (found : Option Finding)
      → viewed (
          tagged ai_finding (
            found_or "AI finding not found." found >>= λ finding.
            set_human_disposition finding next related >>= λ updated.
            ok (record r { ai_findings = set id updated r.ai_findings }, updated)))
        ≡ (found_or "AI finding not found." found >>= λ finding.
            set_human_disposition finding next related >>= λ updated. ok (
              record (view r) { ai_findings = update (λ k. get k r.ai_findings) id updated },
              ai_finding updated,
            ))
  unfolding view
  disposition_refines id next related none = refl
  disposition_refines id next related (some finding) =
      after (set_human_disposition finding next related)
    where
      after :
          (result : Result Finding)
          → viewed (
              tagged ai_finding (
                result >>= λ updated.
                ok (record r { ai_findings = set id updated r.ai_findings }, updated)))
            ≡ (result >>= λ updated. ok (
              record (view r) { ai_findings = update (λ k. get k r.ai_findings) id updated },
              ai_finding updated,
            ))
      after (err e) = refl
      after (ok updated) =
          ap (λ s. ok (s, ai_finding updated))
            (set-update ai_finding r.ai_findings (λ es. record r { ai_findings = es })
              (λ f. record (view r) { ai_findings = f }) (λ es. refl) id updated)

  -- One call: the same reply, and a state that stands for what the specification has.
  call_refines : (c : Call) → viewed (call r c) ≡ spec_call (view r) c
  unfolding call spec_call view Memory.create_project Memory.create_issue Memory.create_rfi
      Memory.create_permit_package Memory.create_review_session Memory.create_ai_review_run
      Memory.create_ai_finding Memory.create_platform_blueprint Memory.create_field_report
      Memory.set_ai_finding_disposition Memory.save_field_report Mail.create_file_record
      Mail.save_file_record Mail.finalize_file_record
  call_refines (Call.create_project v) =
      created_refines Item.project r.projects (λ es. record r { projects = es })
        (λ f. record (view r) { projects = f }) (λ es. refl) _ (λ made. made.id) _
  call_refines (Call.create_issue v) =
      created_refines Item.issue r.issues (λ es. record r { issues = es })
        (λ f. record (view r) { issues = f }) (λ es. refl) _ (λ made. made.id) _
  call_refines (Call.create_rfi v) =
      created_refines Item.rfi r.rfis (λ es. record r { rfis = es })
        (λ f. record (view r) { rfis = f }) (λ es. refl) _ (λ made. made.id) _
  call_refines (Call.create_permit_package v) =
      created_refines Item.permit r.permits (λ es. record r { permits = es })
        (λ f. record (view r) { permits = f }) (λ es. refl) _ (λ made. made.id) _
  call_refines (Call.create_review_session v) =
      created_refines Item.review_session r.review_sessions
        (λ es. record r { review_sessions = es }) (λ f. record (view r) { review_sessions = f })
        (λ es. refl) _ (λ made. made.id) _
  call_refines (Call.create_ai_review_run v) =
      created_refines Item.ai_review_run r.ai_review_runs (λ es. record r { ai_review_runs = es })
        (λ f. record (view r) { ai_review_runs = f }) (λ es. refl) _ (λ made. made.id) _
  call_refines (Call.create_ai_finding v) =
      created_refines Item.ai_finding r.ai_findings (λ es. record r { ai_findings = es })
        (λ f. record (view r) { ai_findings = f }) (λ es. refl) _ (λ made. made.id) _
  call_refines (Call.create_platform_blueprint v) =
      created_refines Item.platform_blueprint r.platform_blueprints
        (λ es. record r { platform_blueprints = es })
        (λ f. record (view r) { platform_blueprints = f }) (λ es. refl) _ (λ made. made.id) _
  call_refines (Call.create_field_report v) =
      created_refines Item.field_report r.field_reports (λ es. record r { field_reports = es })
        (λ f. record (view r) { field_reports = f }) (λ es. refl) _ (λ made. made.id) _
  call_refines (Call.set_ai_finding_disposition id next related) =
      disposition_refines id next related (get id r.ai_findings)
  call_refines (Call.save_field_report f) =
      ap (λ s. ok (s, Item.field_report f))
        (set-update Item.field_report r.field_reports (λ es. record r { field_reports = es })
          (λ g. record (view r) { field_reports = g }) (λ es. refl) f.id f)
  call_refines (Call.create_file_record f) =
      insert_new-claim Item.file_record r.file_records (λ es. record r { file_records = es })
        (λ g. record (view r) { file_records = g }) (λ es. refl) _ f.id f _ refl
  call_refines (Call.save_file_record f) =
      replaced_refines Item.file_record r.file_records (λ es. record r { file_records = es })
        (λ g. record (view r) { file_records = g }) (λ es. refl) _ f.id f _ refl
  call_refines (Call.finalize_file_record f e) =
      replaced_refines Item.file_record r.file_records
        (λ es. record r { file_records = es; audit_events = r.audit_events ++ e ∷ [] })
        (λ g. record (view r) { file_records = g; audit_events = r.audit_events ++ e ∷ [] })
        (λ es. refl) _ f.id f _ refl

  settled-viewed :
      (result : Result (Repository × Item))
      → settled (view r) (viewed result) ≡ (view (settled r result).0, (settled r result).1)
  settled-viewed (err e) = refl
  settled-viewed (ok (r', i)) = refl

-- After any run of calls that create or change projects, issues, RFIs, permit packages, review sessions,
-- review runs, findings, blueprints, field reports and files, the replies are those of the specification,
-- and the repository stands for the state that the specification ends in: each store is a function from
-- ids to records, changed at the id that a call writes, and a call that throws leaves all as it was.
pub run_refines :
    (cs : List Call) (r : Repository) → spec_run cs (view r) ≡ (view (run cs r).0, (run cs r).1)
unfolding run spec_run
run_refines [] r = refl
run_refines (c ∷ cs) r =
    rw (← call_refines r c)
      (rw (settled-viewed r (call r c)) (rw (run_refines cs (settled r (call r c)).0) refl))
