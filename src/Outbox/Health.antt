-- ===== src/Outbox/Health.antt =====
-- `healthFromRecords` and `checkReadiness` of apps/api/src/reliability/outbox.js.
pub mod Readiness
use xygo_aec.Base.{
  ℕ, ◌+◌, ◌-◌, min, String, Bool, true, false, not, ◌&&◌, ◌||◌, List, [], ◌∷◌, Option, none, some,
  Result, ok, throw_code, ◌==◌, leb, ◌⧺◌, decimal, if◌then◌else◌,
}
use xygo_aec.Outbox.Jobs.{Status, pending, processing, failed, processed, dead, Job}
use xygo_aec.Outbox.Store.{Store, is_stale}

pub record Counts : Type 0 where
  pub pending : ℕ
  pub processing : ℕ
  pub failed : ℕ
  pub processed : ℕ
  pub dead : ℕ

pub record Health : Type 0 where
  pub ready : Bool
  pub counts : Counts
  pub stale : ℕ
  pub backlog : ℕ
  pub oldest_pending_age : ℕ

pub record HealthOptions : Type 0 where
  pub now : ℕ
  pub stale_after : ℕ
  pub max_dead_jobs : ℕ
  pub max_backlog : ℕ
  pub oldest_pending : ℕ
  pub require_healthy : Bool

-- The variables of the loop.
pub record Scan : Type 0 where
  pub counts : Counts
  pub stale : ℕ
  pub oldest_created_at : Option ℕ

unfoldable pub no_jobs : Scan
no_jobs = record {
  counts = record { pending = 0; processing = 0; failed = 0; processed = 0; dead = 0 };
  stale = 0;
  oldest_created_at = none;
}

-- `counts[status] += 1`
unfoldable pub count_status : Status → Counts → Counts
count_status Status.pending c = record c { pending = c.pending + 1 }
count_status Status.processing c = record c { processing = c.processing + 1 }
count_status Status.failed c = record c { failed = c.failed + 1 }
count_status Status.processed c = record c { processed = c.processed + 1 }
count_status Status.dead c = record c { dead = c.dead + 1 }

unfoldable pub is_processing : Status → Bool
is_processing Status.processing = true
is_processing _ = false

-- `["pending", "failed", "processing"].includes(status)`
unfoldable pub is_open : Status → Bool
is_open Status.pending = true
is_open Status.failed = true
is_open Status.processing = true
is_open _ = false

unfoldable pub older : Option ℕ → ℕ → Option ℕ
older none t = some t
older (some s) t = some (min s t)

unfoldable pub scan_job : HealthOptions → Scan → Job → Scan
unfolding count_status is_processing is_open older is_stale
scan_job o s j = record {
  counts = count_status j.status s.counts;
  stale =
      if is_processing j.status && is_stale j.locked_at o.now o.stale_after
      then s.stale + 1
      else s.stale;
  oldest_created_at =
      if is_open j.status then older s.oldest_created_at j.created_at else s.oldest_created_at;
}

unfoldable pub scan_jobs : HealthOptions → Scan → List Job → Scan
unfolding scan_job
scan_jobs o s [] = s
scan_jobs o s (j ∷ js) = scan_jobs o (scan_job o s j) js

abbrev pub age : Option ℕ → ℕ → ℕ
age none now = 0
age (some t) now = now - t

-- The value that follows the loop.
unfoldable pub health_of : HealthOptions → Scan → Health
health_of o s =
    let backlog = s.counts.pending + s.counts.failed + s.counts.processing in
    let oldest = age s.oldest_created_at o.now in
    record {
      ready =
          (s.stale == 0)
          && leb s.counts.dead o.max_dead_jobs
          && leb backlog o.max_backlog
          && leb oldest o.oldest_pending;
      counts = s.counts;
      stale = s.stale;
      backlog = backlog;
      oldest_pending_age = oldest;
    }

unfoldable pub health_from_records : List Job → HealthOptions → Health
unfolding scan_jobs no_jobs health_of
health_from_records records o = health_of o (scan_jobs o no_jobs records)

unfoldable pub check_readiness : Store → HealthOptions → Result Health
check_readiness s o =
    let health = health_from_records s.items o in
    if o.require_healthy && not health.ready
    then throw_code
        ("Outbox is unhealthy: "
          ⧺ decimal health.stale
          ⧺ " stale processing job(s), "
          ⧺ decimal health.counts.dead
          ⧺ " dead job(s).")
        "outbox_unhealthy"
    else ok health
