-- ===== src/Outbox/Totals.antt =====
-- One round of the worker of apps/api/src/reliability/outbox.js settles every job that it claimed.
use xygo_aec.Base.{
  ℕ, String, true, false, List, [], ◌∷◌, ok, includes, ◌≡◌, ◌⊎◌, inl, inr, refl, ◌∙◌, ap, arith,
  Bool-cases,
}
use xygo_aec.Outbox.Jobs.{Job, Status, processed, failed}
use xygo_aec.Outbox.Store.{Store, find_job, update_job, RetryOptions, claim}
use xygo_aec.Outbox.Updates.{ids, Distinct, find_job-update_other}
use xygo_aec.Outbox.Invariant.{claimed_job_found}
use xygo_aec.Outbox.Retries.{find_job-update_job}
use xygo_aec.Outbox.Processing.{Tally, no_jobs, Handler, settle, settle_all, process_outbox_once}
use xygo_aec.Outbox.Claims.{claim-claimed_job, claim-Distinct}
use xygo_aec.Outbox.Settling.{
  settlement, count_ending, tally_from, same_tally, tally_from-count, settlement-id,
  settlement-Ended, settle_with_lem, AllHeld, AllHeld-other, ending, Ended, occurrences,
}

module _ {W : Type 0} (handler : Handler W) (worker : String) (now : ℕ) (o : RetryOptions) where
  -- The endings of the jobs, when the handler is called for one after the other, and the last world.
  abbrev pub endings : W → List Job → List Status
  endings w [] = []
  endings w (j ∷ js) = ending o j (handler w j).1 ∷ endings (handler w j).0 js

  abbrev pub last_world : W → List Job → W
  last_world w [] = w
  last_world w (j ∷ js) = last_world (handler w j).0 js

  -- Each job is stored as the answer of its handler says.
  abbrev pub AllEnded : Store → W → List Job → Type 0
  AllEnded s w [] = Unit
  AllEnded s w (j ∷ js) = Ended s now o j (handler w j).1 × AllEnded s (handler w j).0 js

  -- The store in which all was settled, one job after the other.
  abbrev settled_store : Store → W → List Job → Store
  settled_store s w [] = s
  settled_store s w (j ∷ js) =
      settled_store
        (record s { items = update_job j.id (settlement now o j (handler w j).1) s.items })
        (handler w j).0 js

  settle_all_lem :
      (s : Store) (w : W) (js : List Job) (t : Tally)
      → Distinct (ids js)
      → AllHeld s worker js
      → settle_all handler worker now o s w js (ok t)
        ≡ ((settled_store s w js, last_world w js), ok (tally_from t (endings w js)))
  unfolding settle_all settle
  settle_all_lem s w [] t d held =
      ap (λ u. ((s, w), ok u)) (same_tally (omega arith) (omega arith) (omega arith))
  settle_all_lem s w (j ∷ js) t d held =
      let (w', answer) = handler w j in
      let change = settlement now o j answer in
      let s' : Store = record s { items = update_job j.id change s.items } in
      ap (λ r. settle_all handler worker now o r.0 w' js r.1)
        (settle_with_lem s worker now o j answer t held.0)
      ∙ settle_all_lem s' w' js (count_ending (ending o j answer) t) d.1
          (AllHeld-other s j.id worker change js (settlement-id now o j answer) d.0 held.1)
      ∙ ap (λ u. ((settled_store s' w' js, last_world w' js), ok u))
          (tally_from-count o j answer t (endings w' js))

  -- A job that is not among the settled ones is as it was.
  settled_store-other :
      (s : Store) (w : W) (js : List Job) (id : String)
      → includes (ids js) id ≡ false
      → find_job id (settled_store s w js).items ≡ find_job id s.items
  settled_store-other s w [] id h = refl
  settled_store-other s w (j ∷ js) id h =
      settled_store-other
        (record s { items = update_job j.id (settlement now o j (handler w j).1) s.items })
        (handler w j).0 js id (ground arith)
      ∙ find_job-update_other j.id id (settlement now o j (handler w j).1) s.items
          (settlement-id now o j (handler w j).1) (ground arith)

  settled_store-AllEnded :
      (s : Store) (w : W) (js : List Job)
      → Distinct (ids js)
      → AllHeld s worker js
      → AllEnded (settled_store s w js) w js
  settled_store-AllEnded s w [] d held = tt
  settled_store-AllEnded s w (j ∷ js) d held =
      let (w', answer) = handler w j in
      let change = settlement now o j answer in
      let s' : Store = record s { items = update_job j.id change s.items } in
      (
        settlement-Ended (settled_store s' w' js) now o j answer (
            settled_store-other s' w' js j.id d.0
            ∙ find_job-update_job j.id change s.items j (settlement-id now o j answer)
                (claimed_job_found s j.id worker j held.0).0),
        settled_store-AllEnded s' w' js d.1
            (AllHeld-other s j.id worker change js (settlement-id now o j answer) d.0 held.1),
      )

-- A round of the worker on a store in which no two jobs share an id throws nothing, whatever the handlers do
-- with their world: each job that it claimed is stored as processed and completed now, if its handler
-- answered, and else as dead, if the exception is not retryable or the allowed attempts were made, or as
-- failed; it has no lock and no owner and keeps its attempts. The tally counts these endings, the world is
-- the one that the handlers leave, called once for each claimed job, and every other job is as it was after
-- the claim.
pub process_outbox_once-total :
    {W : Type 0} (s : Store) (w : W) (handler : Handler W) (now : ℕ) (o : RetryOptions)
    (concurrency stale_after : ℕ) (worker : String)
    → Distinct (ids s.items)
    → let (claimed, jobs) = claim s worker now concurrency stale_after in
      let round = process_outbox_once s w handler now o concurrency stale_after worker in
      let ends = endings handler worker now o w jobs in
      (round.1
        ≡ ok (record {
          processed = occurrences processed ends;
          retried = occurrences failed ends;
          dead = occurrences Status.dead ends;
        }))
      × AllEnded handler worker now o round.0.0 w jobs
      × (round.0.1 ≡ last_world handler worker now o w jobs)
      × ((id : String)
          → (includes (ids jobs) id ≡ true)
            ⊎ (find_job id round.0.0.items ≡ find_job id claimed.items))
unfolding process_outbox_once
process_outbox_once-total s w handler now o concurrency stale_after worker d =
    let (claimed, jobs) = claim s worker now concurrency stale_after in
    let distinct = claim-Distinct s worker now concurrency stale_after d in
    let held = claim-claimed_job s worker now concurrency stale_after d in
    rw (settle_all_lem handler worker now o claimed w jobs no_jobs distinct held) (
      ap ok (same_tally (omega arith) (omega arith) (omega arith)),
      settled_store-AllEnded handler worker now o claimed w jobs distinct held,
      refl,
      λ id. elim (Bool-cases (includes (ids jobs) id)) [
        | inl e ↦ inl e
        | inr n ↦ inr (settled_store-other handler worker now o claimed w jobs id n)
      ],
    )
