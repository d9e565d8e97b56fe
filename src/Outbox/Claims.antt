-- ===== src/Outbox/Claims.antt =====
-- `claim` of the store in memory of apps/api/src/reliability/outbox.js: what it hands out, and what it
-- leaves alone.
use xygo_aec.Base.{
  ℕ, zero, suc, String, Bool, true, false, List, [], ◌∷◌, map, some, ok, ◌===◌, ===_refl, keep,
  take, All, includes, ◌≡◌, refl, ap, ◌∙◌, subst, arith, eq_iff, Bool-cases, inl, inr,
}
use xygo_aec.Outbox.Jobs.{Job}
use xygo_aec.Outbox.Store.{
  Store, find_job, change_first, is_ready, ready, mark_claimed, claim, claimed_job, is_claimed_by,
}
use xygo_aec.Outbox.Updates.{ids, Distinct, found_here, found_later}

module _ (P : Job → Type 0) where
  pub All-always : (js : List Job) → ((j : Job) → P j) → All P js
  All-always [] k = tt
  All-always (j ∷ js) k = (k j, All-always js k)

  All-take : (n : ℕ) (js : List Job) → All P js → All P (take n js)
  All-take zero js all = tt
  All-take (suc n) [] all = tt
  All-take (suc n) (j ∷ js) all = (all.0, All-take n js all.1)

  pub All-map : (f : Job → Job) (js : List Job) → All (λ j. P (f j)) js → All P (map f js)
  All-map f [] all = tt
  All-map f (j ∷ js) all = (all.0, All-map f js all.1)

  -- The jobs that pass the test have what it stands for.
  All-keep :
      (test : Job → Bool) (js : List Job) → All (λ j. test j ≡ true → P j) js → All P (keep test js)
  All-keep test [] all = tt
  All-keep test (j ∷ js) all = elim (Bool-cases (test j)) [
    | inl e ↦ rw e (all.0 e, All-keep test js all.1)
    | inr e ↦ rw e (All-keep test js all.1)
  ]

  pub All-both :
      (Q R : Job → Type 0) (js : List Job)
      → ((j : Job) → P j → Q j → R j)
      → All P js
      → All Q js
      → All R js
  All-both Q R [] k p q = tt
  All-both Q R (j ∷ js) k p q = (k j p.0 q.0, All-both Q R js k p.1 q.1)

-- The jobs of a list without the text have other ids.
All-other :
    (t : String) (js : List Job) → includes (ids js) t ≡ false → All (λ j. (j.id === t) ≡ false) js
All-other t [] h = tt
All-other t (j ∷ js) h =
    (ground (arith, eq_iff t j.id, eq_iff j.id t), All-other t js (ground arith))

module _ (test : Job → Bool) (change : Job → Job) (keeps : (j : Job) → (change j).id ≡ j.id) where
  abbrev chosen : ℕ → List Job → List Job
  chosen limit js = map change (take limit (keep test js))

  chosen-ids :
      (limit : ℕ) (js : List Job) (t : String)
      → includes (ids js) t ≡ false
      → includes (ids (chosen limit js)) t ≡ false
  chosen-ids zero js t h = refl
  chosen-ids (suc limit) [] t h = refl
  chosen-ids (suc limit) (j ∷ js) t h = ground (
    arith,
    keeps j,
    chosen-ids limit js t (ground arith),
    chosen-ids (suc limit) js t (ground arith),
  )

  chosen-Distinct :
      (limit : ℕ) (js : List Job) → Distinct (ids js) → Distinct (ids (chosen limit js))
  chosen-Distinct zero js d = tt
  chosen-Distinct (suc limit) [] d = tt
  chosen-Distinct (suc limit) (j ∷ js) d = elim (Bool-cases (test j)) [
    | inl e ↦ rw (e, keeps j) (chosen-ids limit js j.id d.0, chosen-Distinct limit js d.1)
    | inr e ↦ rw e (chosen-Distinct (suc limit) js d.1)
  ]

  -- Every chosen job is found by its id.
  chosen_found :
      (limit : ℕ) (js : List Job)
      → Distinct (ids js)
      → All (λ j. find_job j.id (change_first limit test change js) ≡ some j) (chosen limit js)
  unfolding change_first find_job
  chosen_found zero js d = tt
  chosen_found (suc limit) [] d = tt
  chosen_found (suc limit) (j ∷ js) d = elim (Bool-cases (test j)) [
    | inl e ↦ rw e (
      ground (arith, eq_iff (change j).id (change j).id),
      All-both (λ c. (c.id === j.id) ≡ false) _ _ (chosen limit js)
          (λ c other found. ground (arith, keeps j, eq_iff (change j).id c.id, eq_iff c.id j.id))
          (All-other j.id (chosen limit js) (chosen-ids limit js j.id d.0))
          (chosen_found limit js d.1),
    )
    | inr e ↦ rw e (
        All-both (λ c. (c.id === j.id) ≡ false) _ _ (chosen (suc limit) js)
          (λ c other found. ground (arith, eq_iff j.id c.id, eq_iff c.id j.id))
          (All-other j.id (chosen (suc limit) js) (chosen-ids (suc limit) js j.id d.0))
          (chosen_found (suc limit) js d.1))
  ]

  -- A job that is found and fails the test is not chosen.
  pub chosen_without :
      (limit : ℕ) (js : List Job) (j : Job)
      → Distinct (ids js)
      → test j ≡ false
      → find_job j.id js ≡ some j
      → includes (ids (chosen limit js)) j.id ≡ false
  unfolding find_job
  chosen_without zero js j d t h = refl
  chosen_without (suc limit) [] j d t h = refl
  chosen_without (suc limit) (x ∷ js) j d t h = elim (Bool-cases (x.id === j.id)) [
    | inl e ↦
        let same : x ≡ j = found_here x j _ _ e h in
        let spared : test x ≡ false = ap test same ∙ t in
        rw spared
          (chosen-ids (suc limit) js j.id (subst (λ y. includes (ids js) y.id ≡ false) same d.0))
    | inr n ↦
        let rest = found_later x _ j _ n h in
        elim (Bool-cases (test x)) [
          | inl e ↦
              let fewer = chosen_without limit js j d.1 t rest in
              rw e (ground (arith, fewer, keeps x, eq_iff x.id j.id, eq_iff j.id x.id))
          | inr e ↦ rw e (chosen_without (suc limit) js j d.1 t rest)
        ]
  ]

pub mark_claimed-id : (worker : String) (now : ℕ) (j : Job) → (mark_claimed worker now j).id ≡ j.id
unfolding mark_claimed
mark_claimed-id worker now j = refl

mark_claimed-owned :
    (worker : String) (now : ℕ) (j : Job) → is_claimed_by worker (mark_claimed worker now j) ≡ true
unfolding mark_claimed is_claimed_by
mark_claimed-owned worker now j = ===_refl worker

claimed_job_here :
    (worker : String) (s : Store) (j : Job)
    → is_claimed_by worker j ≡ true
    → find_job j.id s.items ≡ some j
    → claimed_job s j.id worker ≡ ok j
unfolding claimed_job
claimed_job_here worker s j owned found = ground arith

-- Every job that `claim` returns is in the store as returned and claimed by the worker, so that
-- `complete` and `fail` accept the worker's call for it, if no two jobs share an id.
pub claim-claimed_job :
    (s : Store) (worker : String) (now limit stale_after : ℕ)
    → Distinct (ids s.items)
    → All
        (λ j. claimed_job (claim s worker now limit stale_after).0 j.id worker ≡ ok j)
        (claim s worker now limit stale_after).1
unfolding claim ready
claim-claimed_job s worker now limit stale_after d =
    All-both _ _ _ _ (claimed_job_here worker _)
      (All-map (λ j. is_claimed_by worker j ≡ true) (mark_claimed worker now) _
        (All-always _ (take limit (keep (is_ready now stale_after) s.items))
          (mark_claimed-owned worker now)))
      (chosen_found (is_ready now stale_after) (mark_claimed worker now)
        (mark_claimed-id worker now) limit s.items d)

pub claim-Distinct :
    (s : Store) (worker : String) (now limit stale_after : ℕ)
    → Distinct (ids s.items)
    → Distinct (ids (claim s worker now limit stale_after).1)
unfolding claim ready
claim-Distinct s worker now limit stale_after d =
    chosen-Distinct (is_ready now stale_after) (mark_claimed worker now)
      (mark_claimed-id worker now) limit s.items d
