-- ===== src/Outbox/Processing.antt =====
-- `enqueueOutboxEvent` and `processOutboxOnce` of apps/api/src/reliability/outbox.js over the store
-- in memory. The handlers of the claimed jobs run at once; each settles its own job, and they are
-- taken in the order of the claim.
use xygo_aec.Base.{
  ℕ, ◌+◌, String, false, List, [], ◌∷◌, Option, some, Failure, Result, ok, err, if◌then◌else◌,
}
use xygo_aec.Audit.{OutboxEvent, get_or}
use xygo_aec.Outbox.Jobs.{Status, dead, same_status, Job, default_idempotency_key}
use xygo_aec.Outbox.Store.{Store, enqueue, claim, complete, fail, RetryOptions}

unfoldable pub enqueue_outbox_event : Store → OutboxEvent → Option String → ℕ → Result (Store × Job)
enqueue_outbox_event s event key now =
    enqueue s event (some (get_or key (default_idempotency_key event))) now

pub record Tally : Type 0 where
  pub processed : ℕ
  pub retried : ℕ
  pub dead : ℕ

abbrev pub no_jobs : Tally
no_jobs = record { processed = 0; retried = 0; dead = 0 }

-- `error?.retryable === false ? job.attempts : maxAttempts`
unfoldable pub attempts_allowed : Failure → Job → ℕ → ℕ
attempts_allowed error j max_attempts = elim error.retryable [
  | some false ↦ j.attempts
  | _ ↦ max_attempts
]

-- A handler reads the event, the key and the attempt of its job, and reads and changes a world of its own,
-- as that of apps/worker/src/worker.js does the repository and the provider. It does not call the store.
abbrev pub Handler : Type 0 → Type 0
Handler W = W → Job → W × Result (Unit {0})

abbrev pub count_failed : Status → Tally → Tally
count_failed s t =
    if same_status s dead
    then record t { dead = t.dead + 1 }
    else record t { retried = t.retried + 1 }

-- The catch clause.
unfoldable pub settle_failed :
    Store → String → ℕ → RetryOptions → Job → Failure → Tally → Store × Result Tally
unfolding attempts_allowed same_status
settle_failed s worker now o j error t =
    elim (fail s j.id worker error.message now
      (record o { max_attempts = attempts_allowed error j o.max_attempts })) [
        | err e ↦ (s, err e)
        | ok (s', failed) ↦ (s', ok (count_failed failed.status t))
      ]

-- The callback for one job after the handler's answer.
unfoldable pub settle_with :
    Result (Unit {0}) → String → ℕ → RetryOptions → Store → Job → Tally → Store × Result Tally
unfolding settle_failed
settle_with (err error) worker now o s j t = settle_failed s worker now o j error t
settle_with (ok done) worker now o s j t = elim (complete s j.id worker now) [
  | err error ↦ settle_failed s worker now o j error t
  | ok (s', completed) ↦ (s', ok (record t { processed = t.processed + 1 }))
]

module _ {W : Type 0} (handler : Handler W) (worker : String) (now : ℕ) (o : RetryOptions) where
  -- The callback for one job, and the store, the world and the tally that it leaves.
  unfoldable pub settle : Store → W → Job → Tally → (Store × W) × Result Tally
  unfolding settle_with
  settle s w j t =
      let (w', answer) = handler w j in
      let (s', r) = settle_with answer worker now o s j t in ((s', w'), r)

  -- `Promise.all`: every callback runs, and an exception of one is the result.
  unfoldable pub settle_all : Store → W → List Job → Result Tally → (Store × W) × Result Tally
  settle_all s w [] r = ((s, w), r)
  settle_all s w (j ∷ js) (err e) =
      let ((s', w'), ignored) = settle s w j no_jobs in settle_all s' w' js (err e)
  settle_all s w (j ∷ js) (ok t) = let ((s', w'), r) = settle s w j t in settle_all s' w' js r

unfoldable pub process_outbox_once :
    {W : Type 0}
    → Store
    → W
    → Handler W
    → ℕ
    → RetryOptions
    → ℕ
    → ℕ
    → String
    → (Store × W) × Result Tally
unfolding settle_all
process_outbox_once s w handler now o concurrency stale_after worker =
    let (s', jobs) = claim s worker now concurrency stale_after in
    settle_all handler worker now o s' w jobs (ok no_jobs)
