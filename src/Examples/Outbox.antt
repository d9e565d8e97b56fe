-- ===== src/Examples/Outbox.antt =====
-- The outbox at a store with two jobs.
use xygo_aec.Base.{
  ℕ, ◌+◌, String, ◌⊎◌, ◌++◌, List, true, false, [], ◌∷◌, none, some, ok, err, trim, ◌≡◌, refl,
  arith, includes, undefined, ◌↔◌,
}
use xygo_aec.Audit.{OutboxEvent}
use xygo_aec.Outbox.Jobs.{
  Status, Job, required_text, new_job, same_logical_event, normalized_replay_reason,
}
use xygo_aec.Outbox.Store.{
  Store, empty, lookup_key, find_job, enqueue, enqueue_found, claim, claimed_job, is_claimed_by,
  mark_claimed, ready, is_ready, is_stale, fail, RetryOptions, replay, replay_found,
}
use xygo_aec.Outbox.Updates.{ids}
use xygo_aec.Outbox.Exclusive.{claim-exclusive}
use xygo_aec.Outbox.Enqueueing.{enqueue-idempotent}
use xygo_aec.Outbox.Retries.{FailOutcome, fail_sound, ReplayOutcome, replay_sound}
use xygo_aec.Outbox.Reachable.{
  Call, enqueue_call, claim_call, complete_call, fail_call, replay_call, patch_call, after_all,
  after_all-empty,
}
use xygo_aec.Outbox.Invariant.{IsConsistent}
use xygo_aec.Outbox.Processing.{Handler, process_outbox_once}
use xygo_aec.Outbox.Settling.{occurrences}
use xygo_aec.Outbox.Totals.{endings, last_world, AllEnded, process_outbox_once-total}
use xygo_aec.Outbox.Health.{HealthOptions, health_from_records}
use xygo_aec.Outbox.Health.Readiness
use xygo_aec.Outbox.Health.Readiness.{health_from_records-ready, IsHealthy}

abbrev event : OutboxEvent
event = record {
  id = "e1";
  event_type = "permit.created";
  event_version = none;
  aggregate_type = "permit";
  aggregate_id = "p1";
  tenant_id = some "tenant-a";
  payload = undefined;
  staged = true;
  status = "pending";
  occurred_at = "2026-01-01T00:00:00.000Z";
}

abbrev job : Job
job = record {
  id = "e1";
  tenant_id = some "tenant-a";
  event = event;
  idempotency_key = "k";
  status = Status.pending;
  attempts = 0;
  next_attempt_at = 10;
  locked_at = none;
  locked_by = none;
  last_error = none;
  replay_count = 0;
  last_replayed_at = none;
  last_replay_reason = none;
  created_at = 10;
  updated_at = 10;
  completed_at = none;
}

abbrev held : Job
held = record job {
  id = "e2";
  idempotency_key = "l";
  status = Status.processing;
  attempts = 1;
  locked_at = some 20;
  locked_by = some "w1";
}

abbrev ended : Job
ended = record job { id = "e3"; idempotency_key = "m"; status = Status.dead; attempts = 5 }

abbrev store : Store
store = record {
  items = job ∷ held ∷ ended ∷ [];
  idempotency_keys = ("k", "e1") ∷ ("l", "e2") ∷ ("m", "e3") ∷ [];
}

abbrev added_store : Store
added_store = record { items = job ∷ []; idempotency_keys = ("k", "e1") ∷ [] }

enqueued : enqueue empty event (some "k") 10 ≡ ok (added_store, job)
unfolding enqueue new_job required_text enqueue_found lookup_key find_job trim
enqueued = refl

enqueue-idempotent_example : enqueue added_store event (some "k") 99 ≡ ok (added_store, job)
enqueue-idempotent_example =
    enqueue-idempotent empty event (some "k") 10 99 added_store job enqueued

abbrev other_event : OutboxEvent
other_event = record event { aggregate_id = "p2" }

abbrev other_job : Job
other_job = record job { event = other_event }

accepted : new_job other_event (some "k") 10 ≡ ok other_job
unfolding new_job required_text trim
accepted = refl

conflicting : same_logical_event (some job) other_event ≡ false
unfolding same_logical_event
conflicting = refl

key_known : lookup_key "k" store.idempotency_keys ≡ some "e1"
unfolding lookup_key
key_known = refl

job_found : find_job "e1" store.items ≡ some job
unfolding find_job
job_found = refl

abbrev options : RetryOptions
options = record { max_attempts = 5; base_backoff = 1000; max_backoff = 900000 }

consistent : IsConsistent store
unfolding lookup_key
consistent = record {
  sound = (refl, (refl, (refl, tt)));
  distinct = (refl, (refl, (refl, tt)));
  keyed = (refl, (refl, (refl, tt)));
}

-- What others do before the lock of "w1" is stale: "w2" asks for jobs, completes its own, and tries the
-- other's.
abbrev others : List Call
others =
    claim_call "w2" 60 5 100
    ∷ complete_call "e2" "w2" 70
    ∷ fail_call "e1" "w2" "lost" 80 options
    ∷ replay_call "e3" "tenant-a" "retry" 90
    ∷ []

handed_out : (claim store "w1" 30 1 100).1 ≡ [] ++ mark_claimed "w1" 30 job ∷ []
unfolding claim ready is_ready is_stale
handed_out = refl

claim-exclusive_example :
    let s' = after_all (claim store "w1" 30 1 100).0 others in
    (find_job "e1" s'.items ≡ some (mark_claimed "w1" 30 job))
    × (includes (ids (claim s' "w2" 129 5 100).1) "e1" ≡ false)
unfolding mark_claimed
claim-exclusive_example =
    claim-exclusive store "w1" "w2" 30 129 1 5 100 100 others [] [] (mark_claimed "w1" 30 job)
      consistent handed_out (omega arith, (refl, (refl, (tt, tt)))) (tt, (tt, (tt, (tt, tt))))
      (omega arith)

failed_call : (r : Store × Job) × (fail store "e2" "w1" "timeout" 40 options ≡ ok r)
unfolding fail claimed_job find_job is_claimed_by
failed_call = (_, refl)

fail_sound_example : FailOutcome store "e2" "w1" 40 options failed_call.0.0 failed_call.0.1
fail_sound_example =
    fail_sound store "e2" "w1" "timeout" 40 options failed_call.0.0 failed_call.0.1 failed_call.1

replayed_call : (r : Store × Job) × (replay store "e3" "tenant-a" "retry" 50 ≡ ok (r.0, some r.1))
unfolding replay replay_found find_job normalized_replay_reason trim
replayed_call = ((_, _), refl)

replay_sound_example :
    ReplayOutcome store "e3" "tenant-a" 50 replayed_call.0.0 (some replayed_call.0.1)
replay_sound_example =
    replay_sound store "e3" "tenant-a" "retry" 50 replayed_call.0.0 (some replayed_call.0.1)
      replayed_call.1

after_all-empty_example : IsConsistent (
    after_all empty (
      enqueue_call event (some "k") 10
      ∷ claim_call "w1" 30 1 100
      ∷ patch_call "e1" (λ j. record j { updated_at = 50 })
      ∷ []))
after_all-empty_example =
    after_all-empty
      (enqueue_call event (some "k") 10
        ∷ claim_call "w1" 30 1 100
        ∷ patch_call "e1" (λ j. record j { updated_at = 50 })
        ∷ [])
      (tt, (tt, ((record { id = λ j. refl; key = λ j. refl }, λ j sound. sound), tt)))

-- The handler of a world that counts its calls.
abbrev refusing : Handler ℕ
refusing calls j = (calls + 1, err (record { message = "no"; code = none; retryable = some false }))

process_outbox_once-total_example :
    let (claimed, jobs) = claim store "w1" 30 4 100 in
    let round = process_outbox_once store 0 refusing 30 options 4 100 "w1" in
    let ends = endings refusing "w1" 30 options 0 jobs in
    (round.1
      ≡ ok (record {
        processed = occurrences Status.processed ends;
        retried = occurrences Status.failed ends;
        dead = occurrences Status.dead ends;
      }))
    × AllEnded refusing "w1" 30 options round.0.0 0 jobs
    × (round.0.1 ≡ last_world refusing "w1" 30 options 0 jobs)
    × ((id : String)
        → (includes (ids jobs) id ≡ true)
          ⊎ (find_job id round.0.0.items ≡ find_job id claimed.items))
process_outbox_once-total_example =
    process_outbox_once-total store 0 refusing 30 options 4 100 "w1" (refl, (refl, (refl, tt)))

abbrev health_options : HealthOptions
health_options = record {
  now = 100;
  stale_after = 60;
  max_dead_jobs = 0;
  max_backlog = 10;
  oldest_pending = 1000;
  require_healthy = false;
}

health_from_records-ready_example :
    (((health_from_records store.items health_options).ready ≡ true)
      ↔ IsHealthy health_options store.items)
    × (Readiness.total (health_from_records store.items health_options).counts ≡ 3)
health_from_records-ready_example = health_from_records-ready store.items health_options
