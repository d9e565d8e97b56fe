-- ===== src/Permits/Cycles.antt =====
-- Runs of transitions through the permit lifecycle of packages/permits/src/index.js.
use xygo_aec.Base.{
  ℕ, ◌+◌, ◌≤◌, String, Bool, true, not, ◌||◌, List, [], ◌∷◌, Result, ok, ◌>>=◌, includes,
  if◌then◌else◌, Value, ◌≡◌, refl, ap, sym, ◌∙◌, subst, arith, bind_inversion, ok-injective,
}
use xygo_aec.Transitions.{targets, every_edge, every_edge_sound}
use xygo_aec.Access.{Session}
use xygo_aec.Audit.{Crypto, Ambient}
use xygo_aec.Permits.{
  allowed_permit_transitions, PermitPackage, is_submission, moved_permit, transition_permit_package,
}
use xygo_aec.Permits.Lifecycle.{transition_permit_package_sound}

pub record Step : Type 0 where
  pub ambient : Ambient
  pub session : Session
  pub next_status : String
  pub review_comments : List Value

-- Transitions one after another; the first that throws ends the run.
unfoldable pub run_permit : Crypto → PermitPackage → List Step → Result PermitPackage
run_permit c p [] = ok p
run_permit c p (s ∷ ss) =
    transition_permit_package c s.ambient s.session p s.next_status s.review_comments >>= λ r.
    run_permit c r.permit_package ss

-- The number of submissions and resubmissions in a run.
abbrev pub submissions : List Step → ℕ
submissions [] = 0
submissions (s ∷ ss) =
    let rest = submissions ss in if is_submission s.next_status then rest + 1 else rest

-- The states of a package that an authority has seen, but for the ones of a revision.
abbrev pub submitted_states : List String
submitted_states =
    "simulated_submitted" ∷ "reviewer_comments_received" ∷ "simulated_resubmitted"
    ∷ "simulated_approved" ∷ "closed" ∷ []

-- A package in one of them was submitted at least once.
abbrev pub IsSubmitted : PermitPackage → Type 0
IsSubmitted p = includes submitted_states p.status ≡ true → 1 ≤ p.submission_cycles

abbrev submits : String → String → Bool
submits s t = not (includes submitted_states t) || is_submission t || includes submitted_states s

transitions-submit : every_edge submits allowed_permit_transitions ≡ true
transitions-submit = refl

by_submission :
    (seen submission before : Bool) (n : ℕ)
    → (not seen || submission || before) ≡ true
    → (before ≡ true → 1 ≤ n)
    → seen ≡ true
    → 1 ≤ (if submission then n + 1 else n)
by_submission seen submission before n h k e = ground arith

moved_permit-IsSubmitted :
    (p : PermitPackage) (next : String) (comments : List Value)
    → includes (targets allowed_permit_transitions p.status) next ≡ true
    → IsSubmitted p
    → IsSubmitted (moved_permit p next comments)
unfolding moved_permit
moved_permit-IsSubmitted p next comments allowed h =
    by_submission (includes submitted_states next) (is_submission next)
      (includes submitted_states p.status) p.submission_cycles
      (every_edge_sound submits allowed_permit_transitions p.status next transitions-submit allowed)
      h

moved_permit-submission_cycles :
    (p : PermitPackage) (s : Step) (ss : List Step)
    → (moved_permit p s.next_status s.review_comments).submission_cycles + submissions ss
      ≡ p.submission_cycles + submissions (s ∷ ss)
unfolding moved_permit
moved_permit-submission_cycles p s ss = ground arith

-- A run counts its submissions and resubmissions in `submissionCycles`, and a package that is
-- submitted, commented on, resubmitted, approved or closed after it was submitted at least once, if
-- that held before.
pub run_permit-submission_cycles :
    (c : Crypto) (p q : PermitPackage) (ss : List Step)
    → IsSubmitted p
    → run_permit c p ss ≡ ok q
    → (q.submission_cycles ≡ p.submission_cycles + submissions ss) × IsSubmitted q
unfolding run_permit
run_permit-submission_cycles c p q [] h e =
    subst (λ r. (r.submission_cycles ≡ p.submission_cycles + 0) × IsSubmitted r) (ok-injective e)
      (omega arith, h)
run_permit-submission_cycles c p q (s ∷ ss) h e =
    let (r, made, rest) =
      bind_inversion
        (transition_permit_package c s.ambient s.session p s.next_status s.review_comments) _ e in
    let moved =
      transition_permit_package_sound c s.ambient s.session p s.next_status s.review_comments r
        made in
    let (counted, seen) =
      run_permit-submission_cycles c r.permit_package q ss
        (subst IsSubmitted (sym moved.moved)
          (moved_permit-IsSubmitted p s.next_status s.review_comments moved.admitted.allowed h))
        rest in
    (
      counted
          ∙ ap (λ (x : PermitPackage). x.submission_cycles + submissions ss) moved.moved
          ∙ moved_permit-submission_cycles p s ss,
      seen,
    )
