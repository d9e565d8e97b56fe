-- ===== src/Outbox/Retries.antt =====
-- `fail`, `backoffMs` and `replay` of the store in memory of apps/api/src/reliability/outbox.js.
use xygo_aec.Base.{
  ℕ, ◌+◌, ◌-◌, ◌*◌, ◌^◌, ◌≤◌, ◌<◌, String, true, false, ◌===◌, ===_refl, eq_of_===, ap, ◌∙◌, ◌≢◌,
  List, [], ◌∷◌, Option, none, some, ok, ◌≡◌, refl, subst, arith, bind_inversion, ok-injective,
  Bool-cases, inl, inr,
}
use xygo_aec.Outbox.Jobs.{
  Job, Status, failed, dead, same_status, same_text, backoff_ms, normalized_replay_reason,
}
use xygo_aec.Outbox.Store.{
  Store, find_job, update_job, claimed_job, is_claimed_by, RetryOptions, mark_failed, fail,
  mark_replayed, replay, replay_found, is_ready,
}
use xygo_aec.Outbox.Invariant.{claimed_job_found}

pub find_job-update_job :
    (id : String) (change : Job → Job) (js : List Job) (r : Job)
    → ((j : Job) → (change j).id ≡ j.id)
    → find_job id js ≡ some r
    → find_job id (update_job id change js) ≡ some (change r)
unfolding find_job update_job
find_job-update_job id change [] r keeps h = cc
find_job-update_job id change (j ∷ js) r keeps h =
    ground (arith, keeps j, find_job-update_job id change js r keeps)

-- The outcome of a failed attempt of the job `r`.
pub record Failed (o : RetryOptions) (now : ℕ) (r j : Job) : Type 0 where
  pub same_attempts : j.attempts ≡ r.attempts
  pub released : j.locked_by ≡ none
  pub last_attempt : o.max_attempts ≤ r.attempts → (j.status ≡ dead) × (j.next_attempt_at ≡ now)
  pub retried :
      r.attempts < o.max_attempts
      → (j.status ≡ failed)
        × (now ≤ j.next_attempt_at)
        × (j.next_attempt_at ≤ now + o.max_backoff)
        × (j.next_attempt_at ≤ now + o.base_backoff * 2 ^ (r.attempts - 1))

mark_failed-Failed :
    (o : RetryOptions) (message : String) (now : ℕ) (r : Job)
    → Failed o now r (mark_failed o message now r)
unfolding mark_failed backoff_ms
mark_failed-Failed o message now r = record {
  same_attempts = refl;
  released = refl;
  last_attempt = λ h. ground arith;
  retried = λ h. ground arith;
}

mark_failed-id :
    (o : RetryOptions) (message : String) (now : ℕ) (j : Job)
    → (mark_failed o message now j).id ≡ j.id
unfolding mark_failed
mark_failed-id o message now j = refl

mark_replayed-id : (reason : String) (now : ℕ) (j : Job) → (mark_replayed reason now j).id ≡ j.id
unfolding mark_replayed
mark_replayed-id reason now j = refl

-- What a call of `fail` that did not throw has done.
pub record FailOutcome (s : Store) (id worker : String) (now : ℕ) (o : RetryOptions) (s' : Store)
    (j : Job) : Type 0 where
  pub before : Job
  pub found : find_job id s.items ≡ some before
  pub owned : is_claimed_by worker before ≡ true
  pub outcome : Failed o now before j
  pub stored : find_job id s'.items ≡ some j

-- A call of `fail` that succeeds was made by the worker that holds the job. It releases the job; the
-- job is dead at once when it has had the allowed attempts, and else it is failed and due again
-- between now and now plus both the maximal backoff and the base backoff doubled with every attempt
-- after the first. The job is stored as returned.
pub fail_sound :
    (s : Store) (id worker message : String) (now : ℕ) (o : RetryOptions) (s' : Store) (j : Job)
    → fail s id worker message now o ≡ ok (s', j)
    → FailOutcome s id worker now o s' j
unfolding fail
fail_sound s id worker message now o s' j h =
    let (r, claimed, h1) = bind_inversion (claimed_job s id worker) _ h in
    let (found, owned) = claimed_job_found s id worker r claimed in
    subst (λ p. FailOutcome s id worker now o p.0 p.1) (ok-injective h1)
      (record {
        before = r;
        found = found;
        owned = owned;
        outcome = mark_failed-Failed o message now r;
        stored =
            find_job-update_job id (mark_failed o message now) s.items r
              (mark_failed-id o message now) found;
      })

-- What a call of `replay` that did not throw has done.
abbrev pub ReplayOutcome : Store → String → String → ℕ → Store → Option Job → Type 0
ReplayOutcome s id tenant_id now s' none =
    (s ≡ s') × ((r : Job) → find_job id s.items ≡ some r → r.tenant_id ≢ some tenant_id)
ReplayOutcome s id tenant_id now s' (some j) =
    (r : Job) × (find_job id s.items ≡ some r)
    × (find_job id s'.items ≡ some j)
    × (r.tenant_id ≡ some tenant_id)
    × (r.status ≡ dead)
    × (j.attempts ≡ 0)
    × (j.replay_count ≡ r.replay_count + 1)
    × ((stale_after : ℕ) → is_ready now stale_after j ≡ true)

same_text_sound : (t : Option String) (u : String) → same_text t (some u) ≡ true → t ≡ some u
same_text_sound none u h = cc
same_text_sound (some t) u h = ap some (eq_of_=== t u h)

other_tenant :
    (tenant_id : String) (r x : Job)
    → same_text r.tenant_id (some tenant_id) ≡ false
    → r ≡ x
    → x.tenant_id ≢ some tenant_id
other_tenant tenant_id r x other same own =
    let its : r.tenant_id ≡ some tenant_id = ap (λ j. j.tenant_id) same ∙ own in
    let differs : (tenant_id === tenant_id) ≡ false = rw its at other in
    absurd (cc (differs, ===_refl tenant_id))

same_status_sound : (s : Status) → same_status s dead ≡ true → s ≡ dead
unfolding same_status
same_status_sound dead h = refl
same_status_sound _ h = cc

mark_replayed-ready :
    (reason : String) (now stale_after : ℕ) (j : Job)
    → is_ready now stale_after (mark_replayed reason now j) ≡ true
unfolding mark_replayed is_ready
mark_replayed-ready reason now stale_after j = ground arith

replay_found_sound :
    (s : Store) (id tenant_id reason : String) (now : ℕ) (r : Option Job) (s' : Store)
    (j : Option Job)
    → find_job id s.items ≡ r
    → replay_found s id tenant_id reason now r ≡ ok (s', j)
    → ReplayOutcome s id tenant_id now s' j
unfolding replay_found
replay_found_sound s id tenant_id reason now none s' j found h =
    subst (λ p. ReplayOutcome s id tenant_id now p.0 p.1) (ok-injective h)
      (refl, λ x there. cc (found, there))
replay_found_sound s id tenant_id reason now (some r) s' j found h =
    elim (Bool-cases (same_text r.tenant_id (some tenant_id))) [
      | inr other ↦
          subst (λ p. ReplayOutcome s id tenant_id now p.0 p.1) (ok-injective (rw other at h))
            (refl, λ x there. other_tenant tenant_id r x other (cc (found, there)))
      | inl own ↦ elim (Bool-cases (same_status r.status dead)) [
        | inr alive ↦ absurd (cc (rw (own, alive) at h))
        | inl gone ↦
            subst (λ p. ReplayOutcome s id tenant_id now p.0 p.1)
              (ok-injective (rw (own, gone) at h))
              (
                r,
                found,
                find_job-update_job id (mark_replayed reason now) s.items r
                    (mark_replayed-id reason now) found,
                same_text_sound r.tenant_id tenant_id own,
                same_status_sound r.status gone,
                refl,
                refl,
                λ stale_after. mark_replayed-ready reason now stale_after r,
              )
      ]
    ]

-- A call of `replay` that does not throw either returns no job, the store has no job of the tenant under
-- the id, and it stays as it is, or has found a dead job of the tenant: the job is stored as returned, with no attempts, one
-- more replay, and ready to be claimed.
pub replay_sound :
    (s : Store) (id tenant_id reason : String) (now : ℕ) (s' : Store) (j : Option Job)
    → replay s id tenant_id reason now ≡ ok (s', j)
    → ReplayOutcome s id tenant_id now s' j
unfolding replay
replay_sound s id tenant_id reason now s' j h =
    let (text, checked, h1) = bind_inversion (normalized_replay_reason reason) _ h in
    replay_found_sound s id tenant_id text now (find_job id s.items) s' j refl h1
