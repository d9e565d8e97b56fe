-- ===== src/Outbox/Invariant.antt =====
-- What holds of the outbox store in memory of apps/api/src/reliability/outbox.js between two calls.
use xygo_aec.Base.{
  ℕ, String, Bool, true, false, not, ◌&&◌, List, Option, none, some, ok, All, ◌≡◌, refl, subst,
  arith, bind_inversion, ok-injective, Bool-cases, inl, inr,
}
use xygo_aec.Outbox.Jobs.{
  Status, pending, processing, failed, processed, dead, same_status, Job, same_text,
}
use xygo_aec.Outbox.Store.{
  Store, empty, lookup_key, find_job, update_job, is_ready, mark_claimed, claim, claimed_job,
  is_claimed_by, mark_completed, complete, RetryOptions, mark_failed, fail, mark_replayed,
  replay_found, patch,
}
use xygo_aec.Outbox.Updates.{
  ids, Distinct, All-found_job, All-update_job, All-change_first, ids-update_job, ids-change_first,
  All-update_each,
}

abbrev is_some {ℓ} : {A : Type ℓ} → Option A → Bool
is_some none = false
is_some (some a) = true

-- A job has a lock and an owner exactly while it is processing, and a time of completion exactly
-- once it is processed.
abbrev pub matches_status : Status → Bool → Bool → Bool → Bool
matches_status processing locked owned completed = locked && owned && not completed
matches_status processed locked owned completed = not locked && not owned && completed
matches_status pending locked owned completed = not locked && not owned && not completed
matches_status failed locked owned completed = not locked && not owned && not completed
matches_status dead locked owned completed = not locked && not owned && not completed

abbrev pub IsSound : Job → Type 0
IsSound j =
    matches_status j.status (is_some j.locked_at) (is_some j.locked_by) (is_some j.completed_at)
    ≡ true

-- The key of a job leads to the job.
abbrev pub IsKeyed : List (String × String) → Job → Type 0
IsKeyed keys j = lookup_key j.idempotency_key keys ≡ some j.id

pub record IsConsistent (s : Store) : Type 0 where
  pub sound : All IsSound s.items
  pub distinct : Distinct (ids s.items)
  pub keyed : All (IsKeyed s.idempotency_keys) s.items

pub IsConsistent-empty : IsConsistent empty
IsConsistent-empty = record { sound = tt; distinct = tt; keyed = tt }

mark_claimed-IsSound :
    (worker : String) (now stale_after : ℕ) (j : Job)
    → is_ready now stale_after j ≡ true
    → IsSound j
    → IsSound (mark_claimed worker now j)
unfolding mark_claimed is_ready
mark_claimed-IsSound worker now stale_after j h s = ground arith

mark_completed-IsSound : (now : ℕ) (j : Job) → IsSound (mark_completed now j)
unfolding mark_completed
mark_completed-IsSound now j = refl

mark_failed-IsSound :
    (o : RetryOptions) (message worker : String) (now : ℕ) (j : Job)
    → is_claimed_by worker j ≡ true
    → IsSound j
    → IsSound (mark_failed o message now j)
unfolding mark_failed is_claimed_by
mark_failed-IsSound o message worker now j h s = ground arith

mark_replayed-IsSound : (reason : String) (now : ℕ) (j : Job) → IsSound (mark_replayed reason now j)
unfolding mark_replayed
mark_replayed-IsSound reason now j = refl

-- A change that keeps the id and the key of a job.
pub record KeepsKeys (change : Job → Job) : Type 0 where
  pub id : (j : Job) → (change j).id ≡ j.id
  pub key : (j : Job) → (change j).idempotency_key ≡ j.idempotency_key

IsKeyed-change :
    {change : Job → Job} (keys : List (String × String)) (j : Job)
    → KeepsKeys change
    → IsKeyed keys j
    → IsKeyed keys (change j)
IsKeyed-change keys j k h = rw (k.id j, k.key j) h

pub update-IsConsistent :
    (s : Store) (id : String) (change : Job → Job) (r : Job)
    → KeepsKeys change
    → IsConsistent s
    → find_job id s.items ≡ some r
    → IsSound (change r)
    → IsConsistent (record s { items = update_job id change s.items })
update-IsConsistent s id change r k h found new = record {
  sound = All-update_job IsSound id change s.items r h.sound found new;
  distinct = rw (ids-update_job id change s.items k.id) h.distinct;
  keyed = All-update_job (IsKeyed s.idempotency_keys) id change s.items r h.keyed found (
      IsKeyed-change s.idempotency_keys r k
        (All-found_job (IsKeyed s.idempotency_keys) id s.items r h.keyed found));
}

mark_claimed-keeps : (worker : String) (now : ℕ) → KeepsKeys (mark_claimed worker now)
unfolding mark_claimed
mark_claimed-keeps worker now = record { id = λ j. refl; key = λ j. refl }

pub mark_completed-keeps : (now : ℕ) → KeepsKeys (mark_completed now)
unfolding mark_completed
mark_completed-keeps now = record { id = λ j. refl; key = λ j. refl }

pub mark_failed-keeps :
    (o : RetryOptions) (message : String) (now : ℕ) → KeepsKeys (mark_failed o message now)
unfolding mark_failed
mark_failed-keeps o message now = record { id = λ j. refl; key = λ j. refl }

pub mark_replayed-keeps : (reason : String) (now : ℕ) → KeepsKeys (mark_replayed reason now)
unfolding mark_replayed
mark_replayed-keeps reason now = record { id = λ j. refl; key = λ j. refl }

pub claim-IsConsistent :
    (s : Store) (worker : String) (now limit stale_after : ℕ)
    → IsConsistent s
    → IsConsistent (claim s worker now limit stale_after).0
unfolding claim
claim-IsConsistent s worker now limit stale_after h = record {
  sound =
      All-change_first IsSound limit _ _ s.items (mark_claimed-IsSound worker now stale_after)
        h.sound;
  distinct =
      rw
        (ids-change_first limit (is_ready now stale_after) (mark_claimed worker now) s.items
          (mark_claimed-keeps worker now).id)
        h.distinct;
  keyed =
      All-change_first (IsKeyed s.idempotency_keys) limit _ _ s.items
        (λ j t. IsKeyed-change s.idempotency_keys j (mark_claimed-keeps worker now)) h.keyed;
}

-- The job of a call that did not throw.
pub claimed_job_found :
    (s : Store) (id worker : String) (j : Job)
    → claimed_job s id worker ≡ ok j
    → (find_job id s.items ≡ some j) × (is_claimed_by worker j ≡ true)
unfolding claimed_job
claimed_job_found s id worker j h = ground arith

pub complete-IsConsistent :
    (s : Store) (id worker : String) (now : ℕ) (s' : Store) (j : Job)
    → IsConsistent s
    → complete s id worker now ≡ ok (s', j)
    → IsConsistent s'
unfolding complete
complete-IsConsistent s id worker now s' j h e =
    let (r, claimed, e1) = bind_inversion (claimed_job s id worker) _ e in
    let (found, owned) = claimed_job_found s id worker r claimed in
    subst (λ p. IsConsistent p.0) (ok-injective e1)
      (update-IsConsistent s id (mark_completed now) r (mark_completed-keeps now) h found
        (mark_completed-IsSound now r))

pub fail-IsConsistent :
    (s : Store) (id worker message : String) (now : ℕ) (o : RetryOptions) (s' : Store) (j : Job)
    → IsConsistent s
    → fail s id worker message now o ≡ ok (s', j)
    → IsConsistent s'
unfolding fail
fail-IsConsistent s id worker message now o s' j h e =
    let (r, claimed, e1) = bind_inversion (claimed_job s id worker) _ e in
    let (found, owned) = claimed_job_found s id worker r claimed in
    subst (λ p. IsConsistent p.0) (ok-injective e1)
      (update-IsConsistent s id (mark_failed o message now) r (mark_failed-keeps o message now) h
        found
        (mark_failed-IsSound o message worker now r owned
          (All-found_job IsSound id s.items r h.sound found)))

pub replay_found-IsConsistent :
    (s : Store) (id tenant_id reason : String) (now : ℕ) (r : Option Job) (s' : Store)
    (j : Option Job)
    → IsConsistent s
    → find_job id s.items ≡ r
    → replay_found s id tenant_id reason now r ≡ ok (s', j)
    → IsConsistent s'
unfolding replay_found
replay_found-IsConsistent s id tenant_id reason now none s' j h found e =
    subst (λ p. IsConsistent p.0) (ok-injective e) h
replay_found-IsConsistent s id tenant_id reason now (some r) s' j h found e =
    elim (Bool-cases (same_text r.tenant_id (some tenant_id))) [
      | inr other ↦ subst (λ p. IsConsistent p.0) (ok-injective (rw other at e)) h
      | inl own ↦ elim (Bool-cases (same_status r.status dead)) [
        | inr alive ↦ absurd (cc (rw (own, alive) at e))
        | inl gone ↦
            subst (λ p. IsConsistent p.0) (ok-injective (rw (own, gone) at e))
              (update-IsConsistent s id (mark_replayed reason now) r
                (mark_replayed-keeps reason now) h found (mark_replayed-IsSound reason now r))
      ]
    ]

-- A change of any job that keeps what holds of it.
pub patch-IsConsistent :
    (s : Store) (id : String) (changes : Job → Job)
    → KeepsKeys changes
    → ((j : Job) → IsSound j → IsSound (changes j))
    → IsConsistent s
    → IsConsistent (patch s id changes)
unfolding patch
patch-IsConsistent s id changes k sound h = record {
  sound = All-update_each IsSound id changes s.items sound h.sound;
  distinct = rw (ids-update_job id changes s.items k.id) h.distinct;
  keyed =
      All-update_each (IsKeyed s.idempotency_keys) id changes s.items
        (λ j. IsKeyed-change s.idempotency_keys j k) h.keyed;
}
