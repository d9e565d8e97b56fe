-- ===== src/Outbox/Health/Readiness.antt =====
-- When the outbox is ready, in terms of its jobs.
use xygo_aec.Base.{
  ℕ, suc, ◌+◌, ◌-◌, ◌≤◌, Bool, true, false, ◌&&◌, List, [], ◌∷◌, Option, none, some, length, All,
  if◌then◌else◌, ◌≡◌, ◌↔◌, refl, ap, inl, inr, Bool-cases, arith,
}
use xygo_aec.Outbox.Jobs.{Status, Job}
use xygo_aec.Outbox.Store.{is_stale}
use xygo_aec.Outbox.Health.{
  Counts, HealthOptions, Scan, no_jobs, count_status, is_processing, is_open, older, scan_job,
  scan_jobs, health_of, health_from_records, age,
}

abbrev pub total : Counts → ℕ
total c = c.pending + c.processing + c.failed + c.processed + c.dead

total-count_status : (x : Status) (c : Counts) → total (count_status x c) ≡ total c + 1
unfolding count_status
total-count_status x c = ground arith

total-scan_job :
    (o : HealthOptions) (s : Scan) (j : Job) → total (scan_job o s j).counts ≡ total s.counts + 1
unfolding scan_job
total-scan_job o s j = total-count_status j.status s.counts

total-scan_jobs :
    (o : HealthOptions) (s : Scan) (js : List Job)
    → total (scan_jobs o s js).counts ≡ total s.counts + length js
unfolding scan_jobs
total-scan_jobs o s [] = omega arith
total-scan_jobs o s (j ∷ js) =
    omega (arith, total-scan_jobs o (scan_job o s j) js, total-scan_job o s j)

-- The jobs that pass a test.
abbrev pub count_jobs : (Job → Bool) → List Job → ℕ
count_jobs p [] = 0
count_jobs p (j ∷ js) = let rest = count_jobs p js in if p j then suc rest else rest

-- A processing job whose lock has run out.
abbrev pub has_stale_lock : HealthOptions → Job → Bool
has_stale_lock o j = is_processing j.status && is_stale j.locked_at o.now o.stale_after

stale-scan_job :
    (o : HealthOptions) (s : Scan) (j : Job)
    → (scan_job o s j).stale ≡ (if has_stale_lock o j then s.stale + 1 else s.stale)
unfolding scan_job
stale-scan_job o s j = refl

stale-scan_jobs :
    (o : HealthOptions) (s : Scan) (js : List Job)
    → (scan_jobs o s js).stale ≡ s.stale + count_jobs (has_stale_lock o) js
unfolding scan_jobs
stale-scan_jobs o s [] = omega arith
stale-scan_jobs o s (j ∷ js) =
    ground (arith, stale-scan_jobs o (scan_job o s j) js, stale-scan_job o s j)

-- The dead jobs, and the open ones: pending, failed or processing.
unfoldable pub is_dead : Status → Bool
is_dead Status.dead = true
is_dead _ = false

abbrev backlog : Counts → ℕ
backlog c = c.pending + c.failed + c.processing

kinds-count_status :
    (x : Status) (c : Counts)
    → ((count_status x c).dead ≡ (if is_dead x then c.dead + 1 else c.dead))
      × (backlog (count_status x c) ≡ (if is_open x then backlog c + 1 else backlog c))
unfolding count_status is_dead is_open
kinds-count_status x c = ground arith

kinds-scan_job :
    (o : HealthOptions) (s : Scan) (j : Job)
    → ((scan_job o s j).counts.dead
        ≡ (if is_dead j.status then s.counts.dead + 1 else s.counts.dead))
      × (backlog (scan_job o s j).counts
          ≡ (if is_open j.status then backlog s.counts + 1 else backlog s.counts))
unfolding scan_job
kinds-scan_job o s j = kinds-count_status j.status s.counts

kinds-scan_jobs :
    (o : HealthOptions) (s : Scan) (js : List Job)
    → ((scan_jobs o s js).counts.dead ≡ s.counts.dead + count_jobs (λ j. is_dead j.status) js)
      × (backlog (scan_jobs o s js).counts
          ≡ backlog s.counts + count_jobs (λ j. is_open j.status) js)
unfolding scan_jobs
kinds-scan_jobs o s [] = omega arith
kinds-scan_jobs o s (j ∷ js) =
    ground (arith, kinds-scan_jobs o (scan_job o s j) js, kinds-scan_job o s j)

-- An open job is not older than the options allow.
abbrev pub IsYoung : HealthOptions → Job → Type 0
IsYoung o j = is_open j.status ≡ true → o.now - j.created_at ≤ o.oldest_pending

age-older :
    (o : HealthOptions) (t : Option ℕ) (u : ℕ)
    → (age (older t u) o.now ≤ o.oldest_pending)
      ↔ ((age t o.now ≤ o.oldest_pending) × (o.now - u ≤ o.oldest_pending))
unfolding older
age-older o none u = (λ h. omega arith, λ h. omega arith)
age-older o (some t) u = (λ h. omega arith, λ h. omega arith)

oldest-scan_job :
    (o : HealthOptions) (s : Scan) (j : Job)
    → (scan_job o s j).oldest_created_at
      ≡ (if is_open j.status then older s.oldest_created_at j.created_at else s.oldest_created_at)
unfolding scan_job
oldest-scan_job o s j = refl

oldest_open :
    (o : HealthOptions) (s : Scan) (j : Job)
    → is_open j.status ≡ true
    → (scan_job o s j).oldest_created_at ≡ older s.oldest_created_at j.created_at
oldest_open o s j e = cc (
  oldest-scan_job o s j,
  ap (λ b. if b then older s.oldest_created_at j.created_at else s.oldest_created_at) e,
)

oldest_closed :
    (o : HealthOptions) (s : Scan) (j : Job)
    → is_open j.status ≡ false
    → (scan_job o s j).oldest_created_at ≡ s.oldest_created_at
oldest_closed o s j e = cc (
  oldest-scan_job o s j,
  ap (λ b. if b then older s.oldest_created_at j.created_at else s.oldest_created_at) e,
)

IsYoung-scan_job :
    (o : HealthOptions) (s : Scan) (j : Job)
    → (age (scan_job o s j).oldest_created_at o.now ≤ o.oldest_pending)
      ↔ ((age s.oldest_created_at o.now ≤ o.oldest_pending) × IsYoung o j)
IsYoung-scan_job o s j = elim (Bool-cases (is_open j.status)) [
  | inl e ↦ rw (oldest_open o s j e) (
    λ h. let (old, new) = (age-older o s.oldest_created_at j.created_at).0 h in (old, λ t. new),
    λ h. (age-older o s.oldest_created_at j.created_at).1 (h.0, h.1 e),
  )
  | inr e ↦ rw (oldest_closed o s j e) (λ h. (h, λ t. absurd (cc)), λ h. h.0)
]

IsYoung-scan_jobs :
    (o : HealthOptions) (s : Scan) (js : List Job)
    → (age (scan_jobs o s js).oldest_created_at o.now ≤ o.oldest_pending)
      ↔ ((age s.oldest_created_at o.now ≤ o.oldest_pending) × All (IsYoung o) js)
unfolding scan_jobs
IsYoung-scan_jobs o s [] = (λ h. (h, tt), λ h. h.0)
IsYoung-scan_jobs o s (j ∷ js) =
    let later = IsYoung-scan_jobs o (scan_job o s j) js in
    let here = IsYoung-scan_job o s j in
    (
      λ h. let (early, young) = later.0 h in ((here.0 early).0, ((here.0 early).1, young)),
      λ h. later.1 (here.1 (h.0, h.1.0), h.1.1),
    )

-- An outbox within its limits.
pub record IsHealthy (o : HealthOptions) (js : List Job) : Type 0 where
  pub unlocked : count_jobs (has_stale_lock o) js ≡ 0
  pub few_dead : count_jobs (λ j. is_dead j.status) js ≤ o.max_dead_jobs
  pub short : count_jobs (λ j. is_open j.status) js ≤ o.max_backlog
  pub young : All (IsYoung o) js

ready_iff :
    (o : HealthOptions) (s : Scan)
    → ((health_of o s).ready ≡ true) ↔ (
        (s.stale ≡ 0)
        × (s.counts.dead ≤ o.max_dead_jobs)
        × (backlog s.counts ≤ o.max_backlog)
        × (age s.oldest_created_at o.now ≤ o.oldest_pending))
unfolding health_of
ready_iff o s = (λ h. ground arith, λ h. ground arith)

-- The outbox is ready exactly when no processing job has a stale lock, at most `maxDeadJobs` jobs
-- are dead, at most `maxBacklog` are pending, failed or processing, and none of these is older than
-- `oldestPendingMs`; and the counts of the five statuses add up to the number of jobs.
pub health_from_records-ready :
    (js : List Job) (o : HealthOptions)
    → (((health_from_records js o).ready ≡ true) ↔ IsHealthy o js)
      × (total (health_from_records js o).counts ≡ length js)
unfolding health_from_records no_jobs health_of
health_from_records-ready js o =
    let end = scan_jobs o no_jobs js in
    let r = ready_iff o end in
    let young = IsYoung-scan_jobs o no_jobs js in
    (
      (
        λ h.
            let (unlocked, few_dead, short, recent) = r.0 h in
            record {
              unlocked = omega (arith, stale-scan_jobs o no_jobs js);
              few_dead = omega (arith, kinds-scan_jobs o no_jobs js);
              short = omega (arith, kinds-scan_jobs o no_jobs js);
              young = (young.0 recent).1;
            },
        λ h. r.1 (
          omega (arith, stale-scan_jobs o no_jobs js, h.unlocked),
          omega (arith, kinds-scan_jobs o no_jobs js, h.few_dead),
          omega (arith, kinds-scan_jobs o no_jobs js, h.short),
          young.1 (omega arith, h.young),
        ),
      ),
      omega (arith, total-scan_jobs o no_jobs js),
    )
