-- ===== src/Outbox/Store.antt =====
-- The store in memory of apps/api/src/reliability/outbox.js. `items` is a Map from ids to jobs, in
-- the order of insertion; `idempotency_keys` is a Map from keys to ids.
use xygo_aec.Base.{
  ℕ, zero, suc, ◌+◌, String, Bool, true, false, not, ◌&&◌, ◌||◌, List, [], ◌∷◌, ◌++◌, map, Option,
  none, some, Result, ok, throw, ◌>>=◌, ◌===◌, leb, find, keep, take, if◌then◌else◌,
}
use xygo_aec.Audit.{OutboxEvent}
use xygo_aec.Outbox.Jobs.{
  Status, pending, processing, failed, processed, dead, same_status, Job, bounded_error,
  normalized_replay_reason, same_text, same_logical_event, idempotency_conflict, new_job,
  backoff_ms,
}

pub record Store : Type 0 where
  pub items : List Job
  pub idempotency_keys : List (String × String)

abbrev pub empty : Store
empty = record { items = []; idempotency_keys = [] }

unfoldable pub lookup_key : String → List (String × String) → Option String
lookup_key k [] = none
lookup_key k ((j, id) ∷ rest) = if j === k then some id else lookup_key k rest

-- `items.get(id)`
unfoldable pub find_job : String → List Job → Option Job
find_job id items = find (λ j. j.id === id) items

-- `Object.assign(items.get(id), changes)`
unfoldable pub update_job : String → (Job → Job) → List Job → List Job
update_job id change [] = []
update_job id change (j ∷ js) = if j.id === id then change j ∷ js else j ∷ update_job id change js

-- `get(id)`
unfoldable pub get_job : Store → String → Option Job
unfolding find_job
get_job s id = find_job id s.items

-- The part of `enqueue` below the lookup of the candidate's key.
unfoldable pub enqueue_found : Store → OutboxEvent → Job → Option String → Result (Store × Job)
unfolding find_job
enqueue_found s event candidate (some existing_id) = elim (find_job existing_id s.items) [
  | none ↦ idempotency_conflict
  | some existing ↦
      if same_logical_event (some existing) event then ok (s, existing) else idempotency_conflict
]
enqueue_found s event candidate none = elim (find_job candidate.id s.items) [
  | some other ↦ throw "Outbox event id already exists with a different idempotency key."
  | none ↦ ok (
    record {
      items = s.items ++ candidate ∷ [];
      idempotency_keys = (candidate.idempotency_key, candidate.id) ∷ s.idempotency_keys;
    },
    candidate,
  )
]

unfoldable pub enqueue : Store → OutboxEvent → Option String → ℕ → Result (Store × Job)
unfolding enqueue_found lookup_key
enqueue s event key now = do
  candidate ← new_job event key now
  enqueue_found s event candidate (lookup_key candidate.idempotency_key s.idempotency_keys)

-- `epoch(lockedAt) <= now - staleAfterMs`, false when there is no lock.
unfoldable pub is_stale : Option ℕ → ℕ → ℕ → Bool
is_stale none now stale_after = false
is_stale (some t) now stale_after = leb (t + stale_after) now

-- The filter of `ready`.
unfoldable pub is_ready : ℕ → ℕ → Job → Bool
unfolding same_status is_stale
is_ready now stale_after j =
    ((same_status j.status pending || same_status j.status failed) && leb j.next_attempt_at now)
    || (same_status j.status processing && is_stale j.locked_at now stale_after)

unfoldable pub ready : Store → ℕ → ℕ → List Job
unfolding is_ready
ready s now stale_after = keep (is_ready now stale_after) s.items

-- The assignments of `claim`.
unfoldable pub mark_claimed : String → ℕ → Job → Job
mark_claimed worker now j = record j {
  status = processing;
  attempts = j.attempts + 1;
  locked_at = some now;
  locked_by = some worker;
  updated_at = now;
}

-- Changes the first `limit` jobs that pass the test.
unfoldable pub change_first : ℕ → (Job → Bool) → (Job → Job) → List Job → List Job
change_first zero test change js = js
change_first (suc limit) test change [] = []
change_first (suc limit) test change (j ∷ js) =
    let fewer = change_first limit test change js in
    let same = change_first (suc limit) test change js in
    if test j then change j ∷ fewer else j ∷ same

unfoldable pub claim : Store → String → ℕ → ℕ → ℕ → Store × List Job
unfolding ready is_ready mark_claimed change_first
claim s worker now limit stale_after = (
  record s {
    items = change_first limit (is_ready now stale_after) (mark_claimed worker now) s.items;
  },
  map (mark_claimed worker now) (take limit (ready s now stale_after)),
)

-- `record && record.status === "processing" && record.lockedBy === workerId`
unfoldable pub is_claimed_by : String → Job → Bool
unfolding same_status
is_claimed_by worker j = same_status j.status processing && same_text j.locked_by (some worker)

-- The job that `complete` and `fail` work on.
unfoldable pub claimed_job : Store → String → String → Result Job
unfolding find_job is_claimed_by
claimed_job s id worker = elim (find_job id s.items) [
  | none ↦ throw "Outbox job is not claimed by this worker."
  | some j ↦
      if is_claimed_by worker j then ok j else throw "Outbox job is not claimed by this worker."
]

unfoldable pub mark_completed : ℕ → Job → Job
mark_completed now j = record j {
  status = processed;
  locked_at = none;
  locked_by = none;
  last_error = none;
  updated_at = now;
  completed_at = some now;
}

unfoldable pub complete : Store → String → String → ℕ → Result (Store × Job)
unfolding claimed_job mark_completed update_job
complete s id worker now = do
  j ← claimed_job s id worker
  ok (record s { items = update_job id (mark_completed now) s.items }, mark_completed now j)

pub record RetryOptions : Type 0 where
  pub max_attempts : ℕ
  pub base_backoff : ℕ
  pub max_backoff : ℕ

unfoldable pub mark_failed : RetryOptions → String → ℕ → Job → Job
unfolding bounded_error backoff_ms
mark_failed o message now j =
    let is_dead = leb o.max_attempts j.attempts in
    record j {
      status = if is_dead then dead else failed;
      next_attempt_at =
          if is_dead then now else now + backoff_ms j.attempts o.base_backoff o.max_backoff;
      locked_at = none;
      locked_by = none;
      last_error = some (bounded_error message);
      updated_at = now;
    }

unfoldable pub fail : Store → String → String → String → ℕ → RetryOptions → Result (Store × Job)
unfolding claimed_job mark_failed update_job
fail s id worker message now o = do
  j ← claimed_job s id worker
  ok (
    record s { items = update_job id (mark_failed o message now) s.items },
    mark_failed o message now j,
  )

-- `all()`
unfoldable pub all : Store → List Job
all s = s.items

-- `!filter || value === filter`
abbrev passes : Option String → Option String → Bool
passes none value = true
passes (some f) value = (f === "") || same_text value (some f)

abbrev passes_status : Option Status → Status → Bool
passes_status none s = true
passes_status (some f) s = same_status s f

unfoldable pub list_jobs : Store → Option String → Option Status → List Job
unfolding same_status
list_jobs s tenant_id status =
    keep (λ j. passes tenant_id j.tenant_id && passes_status status j.status) s.items

-- `patch(id, changes)`
unfoldable pub patch : Store → String → (Job → Job) → Store
unfolding update_job
patch s id changes = record s { items = update_job id changes s.items }

unfoldable pub mark_replayed : String → ℕ → Job → Job
mark_replayed reason now j = record j {
  status = pending;
  attempts = 0;
  next_attempt_at = now;
  locked_at = none;
  locked_by = none;
  last_error = none;
  replay_count = j.replay_count + 1;
  last_replayed_at = some now;
  last_replay_reason = some reason;
  updated_at = now;
  completed_at = none;
}

-- `none` for a job that is missing or another tenant's.
unfoldable pub replay_found :
    Store → String → String → String → ℕ → Option Job → Result (Store × Option Job)
unfolding mark_replayed update_job same_status
replay_found s id tenant_id reason now none = ok (s, none)
replay_found s id tenant_id reason now (some j) =
    if not (same_text j.tenant_id (some tenant_id))
    then ok (s, none)
    else if not (same_status j.status dead)
    then throw "Only dead outbox jobs can be replayed."
    else ok (
      record s { items = update_job id (mark_replayed reason now) s.items },
      some (mark_replayed reason now j),
    )

unfoldable pub replay : Store → String → String → String → ℕ → Result (Store × Option Job)
unfolding replay_found find_job
replay s id tenant_id reason now = do
  replay_reason ← normalized_replay_reason reason
  replay_found s id tenant_id replay_reason now (find_job id s.items)
