-- ===== src/Outbox/Held.antt =====
-- A lock on a job of the store in memory of apps/api/src/reliability/outbox.js, and the calls that leave it.
use xygo_aec.Base.{
  ℕ, ◌+◌, ◌<◌, String, true, false, ◌&&◌, List, [], ◌∷◌, Option, none, some, ok, ◌===◌, eq_of_===,
  ===_refl, eq_iff, All, includes, ◌≡◌, refl, sym, ap, ◌∙◌, subst, arith, bind_inversion,
  ok-injective, Bool-cases, inl, inr,
}
use xygo_aec.Audit.{OutboxEvent}
use xygo_aec.Outbox.Jobs.{Job, dead, same_status, same_text, new_job, normalized_replay_reason}
use xygo_aec.Outbox.Store.{
  Store, find_job, update_job, lookup_key, is_ready, ready, mark_claimed, claim, claimed_job,
  is_claimed_by, enqueue, enqueue_found, complete, mark_completed, fail, mark_failed, RetryOptions,
  replay, replay_found, mark_replayed, patch,
}
use xygo_aec.Outbox.Updates.{ids, find_job-update_other, find_job-append, find_job-change_first}
use xygo_aec.Outbox.Invariant.{
  IsConsistent, claimed_job_found, mark_completed-keeps, mark_failed-keeps, mark_replayed-keeps,
}
use xygo_aec.Outbox.Reachable.{
  Call, enqueue_call, claim_call, complete_call, fail_call, replay_call, patch_call, after,
  after_all, kept-after, PatchesWell, enqueue_found_known, enqueue_found_new,
}
use xygo_aec.Outbox.Claims.{chosen_without, mark_claimed-id}

module _ (worker : String) (now : ℕ) (j : Job) where
  -- A call that is not the worker's own for the job, nor a patch of the job, and, if it is a claim, one
  -- before the lock is stale.
  abbrev pub Spares : Call → Type 0
  Spares (claim_call w t limit stale_after) = t < now + stale_after
  Spares (complete_call id w t) = ((id === j.id) && (w === worker)) ≡ false
  Spares (fail_call id w message t o) = ((id === j.id) && (w === worker)) ≡ false
  Spares (patch_call id changes) = (id === j.id) ≡ false
  Spares _ = Unit

  -- The job is in the store, locked by the worker since `now`.
  pub record Held (s : Store) : Type 0 where
    pub found : find_job j.id s.items ≡ some j
    pub owned : is_claimed_by worker j ≡ true
    pub locked : j.locked_at ≡ some now

  is_ready-Held :
      (t stale_after : ℕ)
      → is_claimed_by worker j ≡ true
      → j.locked_at ≡ some now
      → t < now + stale_after
      → is_ready t stale_after j ≡ false
  unfolding is_ready is_claimed_by
  is_ready-Held t stale_after owned locked early = rw locked (ground arith)

  claim-Held :
      (s : Store) (w : String) (t limit stale_after : ℕ)
      → t < now + stale_after
      → Held s
      → Held (claim s w t limit stale_after).0
  unfolding claim
  claim-Held s w t limit stale_after early h = record {
    found =
        find_job-change_first limit (is_ready t stale_after) (mark_claimed w t) j.id s.items j
          (mark_claimed-id w t) (is_ready-Held t stale_after h.owned h.locked early) h.found;
    owned = h.owned;
    locked = h.locked;
  }

  -- A change of a job with another id.
  update-Held :
      (s : Store) (id : String) (change : Job → Job)
      → ((x : Job) → (change x).id ≡ x.id)
      → (id === j.id) ≡ false
      → Held s
      → Held (record s { items = update_job id change s.items })
  update-Held s id change keeps other h = record {
    found = find_job-update_other id j.id change s.items keeps (turned other) ∙ h.found;
    owned = h.owned;
    locked = h.locked;
  }
    where
      turned : (id === j.id) ≡ false → (j.id === id) ≡ false
      turned n = elim (Bool-cases (j.id === id)) [
        | inl e ↦ absurd (cc (n, ap (λ i. i === j.id) (sym (eq_of_=== j.id id e)), ===_refl j.id))
        | inr e ↦ e
      ]

  -- The job that another worker may settle is another one.
  settled_other :
      (s : Store) (id w : String) (r : Job)
      → ((id === j.id) && (w === worker)) ≡ false
      → find_job id s.items ≡ some r
      → is_claimed_by w r ≡ true
      → Held s
      → (id === j.id) ≡ false
  unfolding is_claimed_by
  settled_other s id w r spares found owned h = elim (Bool-cases (id === j.id)) [
    | inr n ↦ n
    | inl e ↦
        let here = subst (λ i. find_job i s.items ≡ some r) (eq_of_=== id j.id e) found in
        let same : r ≡ j = some-injective (sym here ∙ h.found) in
        let both = subst (λ x. is_claimed_by w x ≡ true) same owned in
        absurd
          (one_owner w j.locked_by (rw e at spares) (of_owner w both) (of_owner worker h.owned))
  ]
    where
      some-injective : {x y : Job} → ◌≡◌ {A = Option Job} (some x) (some y) → x ≡ y
      some-injective p = cc

      of_owner : (v : String) → is_claimed_by v j ≡ true → same_text j.locked_by (some v) ≡ true
      of_owner v o = ground arith

      one_owner :
          (v : String) (owner : Option String)
          → (v === worker) ≡ false
          → same_text owner (some v) ≡ true
          → same_text owner (some worker) ≡ true
          → ⊥
      one_owner v none n a b = absurd (cc a)
      one_owner v (some o) n a b = ground (arith, eq_iff o v, eq_iff o worker, eq_iff v worker)

  enqueue-Held :
      (s s' : Store) (event : OutboxEvent) (key : Option String) (t : ℕ) (r : Job)
      → enqueue s event key t ≡ ok (s', r)
      → Held s
      → Held s'
  unfolding enqueue
  enqueue-Held s s' event key t r e h =
      let (c, made, e1) = bind_inversion (new_job event key t) _ e in
      by_key c (lookup_key c.idempotency_key s.idempotency_keys) e1
    where
      by_key :
          (c : Job) (known : Option String) → enqueue_found s event c known ≡ ok (s', r) → Held s'
      by_key c (some id) e1 = subst Held (enqueue_found_known s event c id s' r e1).0 h
      by_key c none e1 = subst Held (enqueue_found_new s event c s' r e1).1 (record {
        found = find_job-append j.id s.items c j h.found;
        owned = h.owned;
        locked = h.locked;
      })

  complete-Held :
      (s s' : Store) (id w : String) (t : ℕ) (r : Job)
      → ((id === j.id) && (w === worker)) ≡ false
      → complete s id w t ≡ ok (s', r)
      → Held s
      → Held s'
  unfolding complete
  complete-Held s s' id w t r spares e h =
      let (x, claimed, e1) = bind_inversion (claimed_job s id w) _ e in
      let (found, owned) = claimed_job_found s id w x claimed in
      subst (λ p. Held p.0) (ok-injective e1)
        (update-Held s id (mark_completed t) (mark_completed-keeps t).id
          (settled_other s id w x spares found owned h) h)

  fail-Held :
      (s s' : Store) (id w message : String) (t : ℕ) (o : RetryOptions) (r : Job)
      → ((id === j.id) && (w === worker)) ≡ false
      → fail s id w message t o ≡ ok (s', r)
      → Held s
      → Held s'
  unfolding fail
  fail-Held s s' id w message t o r spares e h =
      let (x, claimed, e1) = bind_inversion (claimed_job s id w) _ e in
      let (found, owned) = claimed_job_found s id w x claimed in
      subst (λ p. Held p.0) (ok-injective e1)
        (update-Held s id (mark_failed o message t) (mark_failed-keeps o message t).id
          (settled_other s id w x spares found owned h) h)

  -- A dead job is another one than a job that is processing.
  dead_other :
      (s : Store) (id : String) (r : Job)
      → find_job id s.items ≡ some r
      → same_status r.status dead ≡ true
      → Held s
      → (id === j.id) ≡ false
  unfolding is_claimed_by
  dead_other s id r found gone h = elim (Bool-cases (id === j.id)) [
    | inr n ↦ n
    | inl e ↦
        let here = subst (λ i. find_job i s.items ≡ some r) (eq_of_=== id j.id e) found in
        let same : ◌≡◌ {A = Option Job} (some r) (some j) = sym here ∙ h.found in
        let job : r ≡ j = cc same in
        let over : same_status j.status dead ≡ true =
          subst (λ x. same_status x.status dead ≡ true) job gone in
        absurd (apart over h.owned)
  ]
    where
      apart : same_status j.status dead ≡ true → is_claimed_by worker j ≡ true → ⊥
      apart over owned = ground arith

  replay-Held :
      (s s' : Store) (id tenant_id reason : String) (t : ℕ) (r : Option Job)
      → replay s id tenant_id reason t ≡ ok (s', r)
      → Held s
      → Held s'
  unfolding replay replay_found
  replay-Held s s' id tenant_id reason t r e h =
      let (text, checked, e1) = bind_inversion (normalized_replay_reason reason) _ e in
      by_job text (find_job id s.items) refl e1
    where
      by_job :
          (text : String) (x : Option Job)
          → find_job id s.items ≡ x
          → replay_found s id tenant_id text t x ≡ ok (s', r)
          → Held s'
      by_job text none found e1 = subst (λ p. Held p.0) (ok-injective e1) h
      by_job text (some x) found e1 = elim (Bool-cases (same_text x.tenant_id (some tenant_id))) [
        | inr other ↦ subst (λ p. Held p.0) (ok-injective (rw other at e1)) h
        | inl own ↦ elim (Bool-cases (same_status x.status dead)) [
          | inr alive ↦ absurd (cc (rw (own, alive) at e1))
          | inl gone ↦
              subst (λ p. Held p.0) (ok-injective (rw (own, gone) at e1))
                (update-Held s id (mark_replayed text t) (mark_replayed-keeps text t).id
                  (dead_other s id x found gone h) h)
        ]
      ]

  after-Held : (s : Store) (c : Call) → Spares c → PatchesWell c → Held s → Held (after s c)
  unfolding after patch
  after-Held s (enqueue_call event key t) spares well h =
      kept-after Held s _ h (λ s' r e. enqueue-Held s s' event key t r e h)
  after-Held s (claim_call w t limit stale_after) spares well h =
      claim-Held s w t limit stale_after spares h
  after-Held s (complete_call id w t) spares well h =
      kept-after Held s _ h (λ s' r e. complete-Held s s' id w t r spares e h)
  after-Held s (fail_call id w message t o) spares well h =
      kept-after Held s _ h (λ s' r e. fail-Held s s' id w message t o r spares e h)
  after-Held s (replay_call id tenant_id reason t) spares well h =
      kept-after Held s _ h (λ s' r e. replay-Held s s' id tenant_id reason t r e h)
  after-Held s (patch_call id changes) spares well h = update-Held s id changes well.0.id spares h

  pub after_all-Held :
      (s : Store) (cs : List Call)
      → All Spares cs
      → All PatchesWell cs
      → Held s
      → Held (after_all s cs)
  unfolding after_all
  after_all-Held s [] spares well h = h
  after_all-Held s (c ∷ cs) spares well h =
      after_all-Held (after s c) cs spares.1 well.1 (after-Held s c spares.0 well.0 h)

  -- Nobody is given the job of a held lock.
  pub claim-without :
      (s : Store) (w : String) (t limit stale_after : ℕ)
      → IsConsistent s
      → Held s
      → t < now + stale_after
      → includes (ids (claim s w t limit stale_after).1) j.id ≡ false
  unfolding claim ready
  claim-without s w t limit stale_after consistent h early =
      chosen_without (is_ready t stale_after) (mark_claimed w t) (mark_claimed-id w t) limit s.items
        j consistent.distinct (is_ready-Held t stale_after h.owned h.locked early) h.found
