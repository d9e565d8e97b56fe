-- ===== src/Projects/Approvals.antt =====
-- Runs of transitions through the lifecycle of packages/projects/src/index.js.
use xygo_aec.Base.{
  String, Bool, true, not, ◌||◌, List, [], ◌∷◌, Result, ok, ◌>>=◌, includes, ◌===◌, any, str,
  set_has, ◌≡◌, ◌≢◌, ◌⊎◌, inl, inr, refl, ap, sym, ◌∙◌, subst, arith, eq_iff, bind_inversion,
  ok-injective,
}
use xygo_aec.Transitions.{targets, every_edge, every_edge_sound}
use xygo_aec.Contracts.{Project}
use xygo_aec.Access.{Session}
use xygo_aec.Audit.{Crypto, Ambient}
use xygo_aec.Projects.{allowed_transitions, TransitionInput, Transitioned, transition_lifecycle}
use xygo_aec.Projects.Lifecycle.{transition_lifecycle_sound, Moved}

pub record Step : Type 0 where
  pub ambient : Ambient
  pub session : Session
  pub transition : TransitionInput

-- Transitions one after another; the first that throws ends the run.
unfoldable pub run_transitions : Crypto → Project → List Step → Result Project
run_transitions c project [] = ok project
run_transitions c project (s ∷ ss) =
    transition_lifecycle c s.ambient s.session project s.transition >>= λ r.
    run_transitions c r.project ss

-- The states before any approval.
abbrev pub early_states : List String
early_states = "draft" ∷ "internal_review" ∷ "coordination_review" ∷ "returned_for_revision" ∷ []

abbrev pub approval_states : List String
approval_states = "approved_for_permit" ∷ "approved_for_pricing" ∷ []

abbrev leaves_by_approval : String → String → Bool
leaves_by_approval s t =
    not (includes early_states s) || includes early_states t || includes approval_states t

transitions-leave_by_approval : every_edge leaves_by_approval allowed_transitions ≡ true
transitions-leave_by_approval = refl

abbrev pub approves : Step → Bool
approves s = includes approval_states s.transition.to_state

disjunction : (a b d : Bool) → (not a || b || d) ≡ true → a ≡ true → (b ≡ true) ⊎ (d ≡ true)
disjunction a b d k e = ground arith

now : (a b : Bool) → a ≡ true → (a || b) ≡ true
now a b h = ground arith

later {ℓ} : {P : Type ℓ} (a b : Bool) → P ⊎ (b ≡ true) → P ⊎ ((a || b) ≡ true)
later a b (inl p) = inl p
later a b (inr h) = inr (ground arith)

-- From an early state a transition leads to an early state or to an approval.
early_step :
    (from to : String)
    → includes (targets allowed_transitions from) to ≡ true
    → includes early_states from ≡ true
    → (includes early_states to ≡ true) ⊎ (includes approval_states to ≡ true)
early_step from to h early =
    disjunction (includes early_states from) (includes early_states to)
      (includes approval_states to)
      (every_edge_sound leaves_by_approval allowed_transitions from to transitions-leave_by_approval
        h)
      early

run_transitions-nil :
    (c : Crypto) (project q : Project) → run_transitions c project [] ≡ ok q → project ≡ q
unfolding run_transitions
run_transitions-nil c project q h = ok-injective h

-- What a run does, step by step.
run_transitions-cons :
    (c : Crypto) (project q : Project) (s : Step) (ss : List Step)
    → run_transitions c project (s ∷ ss) ≡ ok q
    → (r : Transitioned) × Moved s.session project s.transition r
      × (run_transitions c r.project ss ≡ ok q)
unfolding run_transitions
run_transitions-cons c project q s ss h =
    let (r, made, rest) =
      bind_inversion (transition_lifecycle c s.ambient s.session project s.transition) _ h in
    (r, transition_lifecycle_sound c s.ambient s.session project s.transition r made, rest)

-- A project in review, from draft on, comes to any later state only through an approval for
-- permit or for pricing: a run that ends outside the review states has such a transition.
pub run_transitions-approved :
    (c : Crypto) (project q : Project) (ss : List Step)
    → set_has early_states project.status ≡ true
    → run_transitions c project ss ≡ ok q
    → (set_has early_states q.status ≡ true) ⊎ (any approves ss ≡ true)
run_transitions-approved c project q [] early h =
    inl
      (subst (λ p. set_has early_states p.status ≡ true) (run_transitions-nil c project q h) early)
run_transitions-approved c project q (s ∷ ss) early h =
    let (r, moved, rest) = run_transitions-cons c project q s ss h in
    let current = ap (set_has early_states) moved.admitted.current in
    elim (early_step s.transition.from_state s.transition.to_state moved.admitted.allowed
      (sym current ∙ early)) [
        | inl still ↦ later (approves s) (any approves ss) (
            run_transitions-approved c r.project q ss
              (ap (λ p. set_has early_states p.status) moved.moved ∙ still) rest)
        | inr approved ↦ inr (now (approves s) (any approves ss) approved)
      ]

not-eq_text : (t u : String) → not (t === u) ≡ true → str t ≢ str u
not-eq_text t u h e = ground (arith, eq_iff t u)

abbrev never_supersedes : String → String → Bool
never_supersedes s t = not (t === "superseded")

transitions-never_supersede : every_edge never_supersedes allowed_transitions ≡ true
transitions-never_supersede = refl

-- No run brings a project into the state `superseded`, and none changes anything of a project but
-- its status.
pub run_transitions-never_superseded :
    (c : Crypto) (project q : Project) (ss : List Step)
    → project.status ≢ str "superseded"
    → run_transitions c project ss ≡ ok q
    → (q.status ≢ str "superseded") × (q ≡ record project { status = q.status })
run_transitions-never_superseded c project q [] fresh h =
    let same = run_transitions-nil c project q h in rw (← same) (fresh, refl)
run_transitions-never_superseded c project q (s ∷ ss) fresh h =
    let (r, moved, rest) = run_transitions-cons c project q s ss h in
    let other = not-eq_text s.transition.to_state "superseded" (
      every_edge_sound never_supersedes allowed_transitions s.transition.from_state
        s.transition.to_state transitions-never_supersede moved.admitted.allowed) in
    let (kept, same) =
      run_transitions-never_superseded c r.project q ss (rw moved.moved other) rest in
    (kept, same ∙ ap (λ (p : Project). record p { status = q.status }) moved.moved)
