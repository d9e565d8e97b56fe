-- ===== src/Outbox/Reachable.antt =====
-- Runs of the operations of the outbox store of apps/api/src/reliability/outbox.js: the invariant
-- holds after any calls, by any workers and in any order.
use xygo_aec.Base.{
  ℕ, String, true, List, [], ◌∷◌, ◌++◌, Option, none, some, Result, ok, err, ◌===◌, eq_of_===, All,
  ◌≡◌, refl, ap, subst, arith, eq_iff, bind_inversion, ok-injective, Bool-cases, inl, inr,
}
use xygo_aec.Audit.{OutboxEvent}
use xygo_aec.Outbox.Jobs.{
  Job, required_text-bind, normalized_replay_reason, new_job, same_logical_event,
}
use xygo_aec.Outbox.Store.{
  Store, empty, lookup_key, find_job, enqueue, enqueue_found, claim, complete, RetryOptions, fail,
  replay, patch,
}
use xygo_aec.Outbox.Updates.{find_job-none, Distinct-append}
use xygo_aec.Outbox.Invariant.{
  IsSound, IsKeyed, IsConsistent, IsConsistent-empty, claim-IsConsistent, complete-IsConsistent,
  fail-IsConsistent, replay_found-IsConsistent, KeepsKeys, patch-IsConsistent,
}

All-append : (P : Job → Type 0) (js : List Job) (c : Job) → All P js → P c → All P (js ++ c ∷ [])
All-append P [] c all new = (new, tt)
All-append P (j ∷ js) c all new = (all.0, All-append P js c all.1 new)

-- A new key does not hide the key of a job.
IsKeyed-add :
    (keys : List (String × String)) (k id : String) (js : List Job)
    → lookup_key k keys ≡ none
    → All (IsKeyed keys) js
    → All (IsKeyed ((k, id) ∷ keys)) js
unfolding lookup_key
IsKeyed-add keys k id [] new all = tt
IsKeyed-add keys k id (j ∷ js) new all = (
  elim (Bool-cases (k === j.idempotency_key)) [
    | inl e ↦
        absurd (cc (new, all.0, ap (λ x. lookup_key x keys) (eq_of_=== k j.idempotency_key e)))
    | inr n ↦ rw n all.0
  ],
  IsKeyed-add keys k id js new all.1,
)

IsKeyed-new :
    (keys : List (String × String)) (c : Job) → IsKeyed ((c.idempotency_key, c.id) ∷ keys) c
unfolding lookup_key
IsKeyed-new keys c = ground (arith, eq_iff c.idempotency_key c.idempotency_key)

new_job-IsSound :
    (event : OutboxEvent) (key : Option String) (now : ℕ) (c : Job)
    → new_job event key now ≡ ok c
    → IsSound c
unfolding new_job
new_job-IsSound event key now c h =
    let (id, h1) = required_text-bind _ _ _ h in
    let (event_type, h2) = required_text-bind _ _ _ h1 in
    let (aggregate_type, h3) = required_text-bind _ _ _ h2 in
    let (aggregate_id, h4) = required_text-bind _ _ _ h3 in
    let (k, h5) = required_text-bind _ _ _ h4 in subst IsSound (ok-injective h5) refl

-- A key that is known leaves the store as it is.
pub enqueue_found_known :
    (s : Store) (event : OutboxEvent) (c : Job) (id : String) (s' : Store) (j : Job)
    → enqueue_found s event c (some id) ≡ ok (s', j)
    → (s ≡ s') × (find_job id s.items ≡ some j) × (same_logical_event (some j) event ≡ true)
unfolding enqueue_found
enqueue_found_known s event c id s' j e = ground arith

abbrev pub added : Store → Job → Store
added s c = record {
  items = s.items ++ c ∷ [];
  idempotency_keys = (c.idempotency_key, c.id) ∷ s.idempotency_keys;
}

pub enqueue_found_new :
    (s : Store) (event : OutboxEvent) (c : Job) (s' : Store) (j : Job)
    → enqueue_found s event c none ≡ ok (s', j)
    → (find_job c.id s.items ≡ none) × (added s c ≡ s') × (c ≡ j)
unfolding enqueue_found
enqueue_found_new s event c s' j e = ground arith

enqueue_found-IsConsistent :
    (s : Store) (event : OutboxEvent) (c : Job) (found : Option String) (s' : Store) (j : Job)
    → IsConsistent s
    → IsSound c
    → lookup_key c.idempotency_key s.idempotency_keys ≡ found
    → enqueue_found s event c found ≡ ok (s', j)
    → IsConsistent s'
enqueue_found-IsConsistent s event c (some id) s' j h sound looked e =
    subst IsConsistent (enqueue_found_known s event c id s' j e).0 h
enqueue_found-IsConsistent s event c none s' j h sound looked e =
    let (absent, made, same) = enqueue_found_new s event c s' j e in
    subst IsConsistent made (record {
      sound = All-append IsSound s.items c h.sound sound;
      distinct = Distinct-append s.items c h.distinct (find_job-none c.id s.items absent);
      keyed =
          All-append (IsKeyed ((c.idempotency_key, c.id) ∷ s.idempotency_keys)) s.items c
            (IsKeyed-add s.idempotency_keys c.idempotency_key c.id s.items looked h.keyed)
            (IsKeyed-new s.idempotency_keys c);
    })

pub enqueue-IsConsistent :
    (s : Store) (event : OutboxEvent) (key : Option String) (now : ℕ) (s' : Store) (j : Job)
    → IsConsistent s
    → enqueue s event key now ≡ ok (s', j)
    → IsConsistent s'
unfolding enqueue
enqueue-IsConsistent s event key now s' j h e =
    let (c, made, e1) = bind_inversion (new_job event key now) _ e in
    enqueue_found-IsConsistent s event c (lookup_key c.idempotency_key s.idempotency_keys) s' j h
      (new_job-IsSound event key now c made) refl e1

pub replay-IsConsistent :
    (s : Store) (id tenant_id reason : String) (now : ℕ) (s' : Store) (j : Option Job)
    → IsConsistent s
    → replay s id tenant_id reason now ≡ ok (s', j)
    → IsConsistent s'
unfolding replay
replay-IsConsistent s id tenant_id reason now s' j h e =
    let (text, checked, e1) = bind_inversion (normalized_replay_reason reason) _ e in
    replay_found-IsConsistent s id tenant_id text now (find_job id s.items) s' j h refl e1

-- A call of the store.
pub data Call : Type 0 where
  enqueue_call : OutboxEvent → Option String → ℕ → Call
  claim_call : String → ℕ → ℕ → ℕ → Call
  complete_call : String → String → ℕ → Call
  fail_call : String → String → String → ℕ → RetryOptions → Call
  replay_call : String → String → String → ℕ → Call
  patch_call : String → (Job → Job) → Call

-- The store after a call: an exception leaves it as it was.
abbrev kept {ℓ} : {A : Type ℓ} → Store → Result (Store × A) → Store
kept s (ok (s', a)) = s'
kept s (err e) = s

unfoldable pub after : Store → Call → Store
after s (enqueue_call event key now) = kept s (enqueue s event key now)
after s (claim_call worker now limit stale_after) = (claim s worker now limit stale_after).0
after s (complete_call id worker now) = kept s (complete s id worker now)
after s (fail_call id worker message now o) = kept s (fail s id worker message now o)
after s (replay_call id tenant_id reason now) = kept s (replay s id tenant_id reason now)
after s (patch_call id changes) = patch s id changes

unfoldable pub after_all : Store → List Call → Store
unfolding after
after_all s [] = s
after_all s (c ∷ cs) = after_all (after s c) cs

-- What holds before a call, and after every way in which it ends without an exception, holds after it.
pub kept-after {ℓ} :
    {A : Type ℓ} (P : Store → Type 0) (s : Store) (r : Result (Store × A))
    → P s
    → ((s' : Store) (a : A) → r ≡ ok (s', a) → P s')
    → P (kept s r)
kept-after P s (ok (s', a)) h k = k s' a refl
kept-after P s (err e) h k = h

-- `patch` writes the fields that the caller gives. Only one that keeps the id and the key of a job, and its
-- lock, owner and completion in accord with its status, keeps the invariant.
abbrev pub PatchesWell : Call → Type 0
PatchesWell (patch_call id changes) =
    KeepsKeys changes × ((j : Job) → IsSound j → IsSound (changes j))
PatchesWell _ = Unit

pub after-IsConsistent :
    (s : Store) (c : Call) → PatchesWell c → IsConsistent s → IsConsistent (after s c)
unfolding after
after-IsConsistent s (enqueue_call event key now) well h =
    kept-after IsConsistent s _ h (λ s' j. enqueue-IsConsistent s event key now s' j h)
after-IsConsistent s (claim_call worker now limit stale_after) well h =
    claim-IsConsistent s worker now limit stale_after h
after-IsConsistent s (complete_call id worker now) well h =
    kept-after IsConsistent s _ h (λ s' j. complete-IsConsistent s id worker now s' j h)
after-IsConsistent s (fail_call id worker message now o) well h =
    kept-after IsConsistent s _ h (λ s' j. fail-IsConsistent s id worker message now o s' j h)
after-IsConsistent s (replay_call id tenant_id reason now) well h =
    kept-after IsConsistent s _ h (λ s' j. replay-IsConsistent s id tenant_id reason now s' j h)
after-IsConsistent s (patch_call id changes) well h =
    patch-IsConsistent s id changes well.0 well.1 h

pub after_all-IsConsistent :
    (s : Store) (cs : List Call)
    → All PatchesWell cs
    → IsConsistent s
    → IsConsistent (after_all s cs)
unfolding after_all
after_all-IsConsistent s [] well h = h
after_all-IsConsistent s (c ∷ cs) well h =
    after_all-IsConsistent (after s c) cs well.1 (after-IsConsistent s c well.0 h)

-- After any calls of `enqueue`, `claim`, `complete`, `fail`, `replay` and `patch` on an empty store, failing
-- or not, no two jobs share an id, each job is found by its idempotency key, a job has a lock and an owner
-- exactly while it is processing, and a time of completion exactly once it is processed, if the changes that
-- are patched in keep the id and the key of a job, and the accord of the other fields.
pub after_all-empty : (cs : List Call) → All PatchesWell cs → IsConsistent (after_all empty cs)
after_all-empty cs well = after_all-IsConsistent empty cs well IsConsistent-empty
