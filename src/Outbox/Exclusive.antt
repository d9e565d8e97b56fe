-- ===== src/Outbox/Exclusive.antt =====
-- Calls of several workers on the store in memory of apps/api/src/reliability/outbox.js: a job that is
-- claimed stays with its worker.
use xygo_aec.Base.{
  ℕ, ◌+◌, ◌<◌, String, false, List, [], ◌∷◌, ◌++◌, some, ok, All, includes, ◌≡◌, refl, subst,
}
use xygo_aec.Outbox.Jobs.{Job}
use xygo_aec.Outbox.Store.{Store, find_job, ready, mark_claimed, claim, claimed_job}
use xygo_aec.Outbox.Updates.{ids}
use xygo_aec.Outbox.Invariant.{IsConsistent, claim-IsConsistent, claimed_job_found}
use xygo_aec.Outbox.Reachable.{Call, after_all, PatchesWell, after_all-IsConsistent}
use xygo_aec.Outbox.Claims.{All-always, All-map, claim-claimed_job}
use xygo_aec.Outbox.Held.{Spares, after_all-Held, claim-without}

claim-locked :
    (s : Store) (worker : String) (now limit stale_after : ℕ)
    → All (λ j. j.locked_at ≡ some now) (claim s worker now limit stale_after).1
unfolding claim ready mark_claimed
claim-locked s worker now limit stale_after =
    All-map (λ j. j.locked_at ≡ some now) (mark_claimed worker now) _ (All-always _ _ (λ j. refl))

All-middle :
    (P : Job → Type 0) (earlier rest : List Job) (j : Job) → All P (earlier ++ j ∷ rest) → P j
All-middle P [] rest j all = all.0
All-middle P (x ∷ earlier) rest j all = All-middle P earlier rest j all.1

-- In a store in which the invariant `IsConsistent` holds, a job that a worker has claimed stays as it was
-- handed out, whatever calls follow, of whichever workers: `enqueue`, `replay`, `claim` before the lock is
-- stale, `complete` and `fail` but for the worker's own for the job, and patches of other jobs that keep the
-- invariant. After them no claim hands the job out before the lock is stale, which is at the time of the
-- claim plus the given time.
pub claim-exclusive :
    (s : Store) (worker other : String) (now later limit most stale_after stale : ℕ)
    (cs : List Call) (earlier rest : List Job) (j : Job)
    → IsConsistent s
    → (claim s worker now limit stale_after).1 ≡ earlier ++ j ∷ rest
    → All (Spares worker now j) cs
    → All PatchesWell cs
    → later < now + stale
    → let s' = after_all (claim s worker now limit stale_after).0 cs in
      (find_job j.id s'.items ≡ some j)
      × (includes (ids (claim s' other later most stale).1) j.id ≡ false)
claim-exclusive s worker other now later limit most stale_after stale cs earlier rest j consistent
      handed spares well early =
    let first = (claim s worker now limit stale_after).0 in
    let claimed = All-middle _ earlier rest j (
      subst (All (λ x. claimed_job first x.id worker ≡ ok x)) handed
        (claim-claimed_job s worker now limit stale_after consistent.distinct)) in
    let locked = All-middle _ earlier rest j (
      subst (All (λ x. x.locked_at ≡ some now)) handed
        (claim-locked s worker now limit stale_after)) in
    let (found, owned) = claimed_job_found first j.id worker j claimed in
    let h =
      after_all-Held worker now j first cs spares well
        (record { found = found; owned = owned; locked = locked }) in
    let after_calls =
      after_all-IsConsistent first cs well
        (claim-IsConsistent s worker now limit stale_after consistent) in
    (
      h.found,
      claim-without worker now j (after_all first cs) other later most stale after_calls h early,
    )
