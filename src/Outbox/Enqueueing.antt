-- ===== src/Outbox/Enqueueing.antt =====
-- `enqueue` of the store in memory of apps/api/src/reliability/outbox.js called again for an event.
use xygo_aec.Base.{
  ℕ, String, true, false, List, [], ◌∷◌, ◌++◌, Option, none, some, ok, ===_refl, ◌≡◌, refl, arith,
  bind_inversion, ok-injective,
}
use xygo_aec.Audit.{OutboxEvent}
use xygo_aec.Outbox.Jobs.{
  Job, required_text, required_text-bind, new_job, same_text, same_logical_event,
  idempotency_conflict,
}
use xygo_aec.Outbox.Store.{Store, lookup_key, find_job, enqueue, enqueue_found}
use xygo_aec.Outbox.Reachable.{added, enqueue_found_known, enqueue_found_new}

same_text_refl : (t : Option String) → same_text t t ≡ true
same_text_refl none = refl
same_text_refl (some t) = ===_refl t

-- What a new job takes from its event.
new_job-fields :
    (event : OutboxEvent) (key : Option String) (now : ℕ) (c : Job)
    → new_job event key now ≡ ok c
    → (c.event ≡ event) × (c.tenant_id ≡ event.tenant_id)
unfolding new_job
new_job-fields event key now c h =
    let (id, h1) = required_text-bind _ _ _ h in
    let (event_type, h2) = required_text-bind _ _ _ h1 in
    let (aggregate_type, h3) = required_text-bind _ _ _ h2 in
    let (aggregate_id, h4) = required_text-bind _ _ _ h3 in
    let (k, h5) = required_text-bind _ _ _ h4 in
    let same = ok-injective h5 in rw (← same) (refl, refl)

same_logical_event_refl :
    (c : Job) (event : OutboxEvent)
    → c.event ≡ event
    → c.tenant_id ≡ event.tenant_id
    → same_logical_event (some c) event ≡ true
unfolding same_logical_event
same_logical_event_refl c event e t = ground (
  arith,
  same_text_refl event.tenant_id,
  ===_refl event.event_type,
  ===_refl event.aggregate_type,
  ===_refl event.aggregate_id,
)

new_job-at :
    (event : OutboxEvent) (key : Option String) (now : ℕ) (c : Job) (later : ℕ)
    → new_job event key now ≡ ok c
    → new_job event key later
      ≡ ok (record c { next_attempt_at = later; created_at = later; updated_at = later })
unfolding new_job required_text
new_job-at event key now c later h = ground arith

find_job-append :
    (js : List Job) (c : Job) → find_job c.id js ≡ none → find_job c.id (js ++ c ∷ []) ≡ some c
unfolding find_job
find_job-append [] c h = ground (arith, ===_refl c.id)
find_job-append (j ∷ js) c h = ground (arith, find_job-append js c)

lookup_key-here :
    (k id : String) (keys : List (String × String)) → lookup_key k ((k, id) ∷ keys) ≡ some id
unfolding lookup_key
lookup_key-here k id keys = ground (arith, ===_refl k)

-- What `enqueue` does with a key that is known.
enqueue_found-existing :
    (s : Store) (event : OutboxEvent) (candidate : Job) (id : String) (j : Job)
    → find_job id s.items ≡ some j
    → same_logical_event (some j) event ≡ true
    → enqueue_found s event candidate (some id) ≡ ok (s, j)
unfolding enqueue_found find_job
enqueue_found-existing s event candidate id j found same = ground arith

enqueue_found-again :
    (s : Store) (event : OutboxEvent) (c c' : Job) (s' : Store) (j : Job) (found : Option String)
    → c.event ≡ event
    → c.tenant_id ≡ event.tenant_id
    → lookup_key c.idempotency_key s.idempotency_keys ≡ found
    → enqueue_found s event c found ≡ ok (s', j)
    → enqueue_found s' event c' (lookup_key c.idempotency_key s'.idempotency_keys) ≡ ok (s', j)
enqueue_found-again s event c c' s' j (some id) named owned looked h =
    let (same, found, logical) = enqueue_found_known s event c id s' j h in
    rw (← same, looked) (enqueue_found-existing s event c' id j found logical)
enqueue_found-again s event c c' s' j none named owned looked h =
    let (absent, made, same) = enqueue_found_new s event c s' j h in
    rw (← made, ← same, lookup_key-here c.idempotency_key c.id s.idempotency_keys)
      (enqueue_found-existing (added s c) event c' c.id c (find_job-append s.items c absent)
        (same_logical_event_refl c event named owned))

-- An event that was enqueued, or was there before, can be enqueued again at any later time with the
-- same options: the store stays as it is and the job is the one of the first call.
pub enqueue-idempotent :
    (s : Store) (event : OutboxEvent) (key : Option String) (now later : ℕ) (s' : Store) (j : Job)
    → enqueue s event key now ≡ ok (s', j)
    → enqueue s' event key later ≡ ok (s', j)
unfolding enqueue
enqueue-idempotent s event key now later s' j h =
    let (c, made, h1) = bind_inversion (new_job event key now) _ h in
    let (named, owned) = new_job-fields event key now c made in
    rw (new_job-at event key now c later made)
      (enqueue_found-again s event c _ s' j _ named owned refl h1)

-- An accepted event whose idempotency key belongs to a job of another logical event is refused with
-- `outbox_idempotency_conflict`.
pub enqueue-conflict :
    (s : Store) (event : OutboxEvent) (key : Option String) (now : ℕ) (c j : Job)
    → new_job event key now ≡ ok c
    → lookup_key c.idempotency_key s.idempotency_keys ≡ some j.id
    → find_job j.id s.items ≡ some j
    → same_logical_event (some j) event ≡ false
    → enqueue s event key now ≡ idempotency_conflict
unfolding enqueue enqueue_found find_job
enqueue-conflict s event key now c j made looked found other = rw (made, looked) (ground arith)
