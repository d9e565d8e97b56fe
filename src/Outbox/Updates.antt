-- ===== src/Outbox/Updates.antt =====
-- Lemmas on the list of jobs of a store and the ways in which the operations change it.
use xygo_aec.Base.{
  ℕ, zero, suc, String, Bool, true, false, List, [], ◌∷◌, ◌++◌, Option, none, some, ◌===◌, find,
  All, includes, if◌then◌else◌, ◌≡◌, ◌≢◌, refl, sym, ap, ◌∙◌, subst, arith, eq_iff, Bool-cases, inl,
  inr,
}
use xygo_aec.Outbox.Jobs.{Job}
use xygo_aec.Outbox.Store.{find_job, update_job, change_first}

abbrev pub ids : List Job → List String
ids [] = []
ids (j ∷ js) = j.id ∷ ids js

-- No text stands twice.
abbrev pub Distinct : List String → Type 0
Distinct [] = Unit
Distinct (t ∷ ts) = (includes ts t ≡ false) × Distinct ts

pub found_here :
    (j r : Job) (rest : Option Job) (b : Bool)
    → b ≡ true
    → (if b then some j else rest) ≡ some r
    → j ≡ r
found_here j r rest true e h = cc
found_here j r rest false e h = cc

pub found_later :
    (j : Job) (rest : Option Job) (r : Job) (b : Bool)
    → b ≡ false
    → (if b then some j else rest) ≡ some r
    → rest ≡ some r
found_later j rest r true e h = cc
found_later j rest r false e h = h

module _ (P : Job → Type 0) where
  pub All-found : (p : Job → Bool) (js : List Job) (r : Job) → All P js → find p js ≡ some r → P r
  All-found p [] r all h = cc
  All-found p (j ∷ js) r all h = elim (Bool-cases (p j)) [
    | inl e ↦ subst P (found_here j r (find p js) (p j) e h) all.0
    | inr e ↦ All-found p js r all.1 (found_later j (find p js) r (p j) e h)
  ]

  pub All-found_job :
      (id : String) (js : List Job) (r : Job) → All P js → find_job id js ≡ some r → P r
  unfolding find_job
  All-found_job id js r all h = All-found (λ j. j.id === id) js r all h

  -- Where the changed job is the one that was found.
  pub All-update_job :
      (id : String) (change : Job → Job) (js : List Job) (r : Job)
      → All P js
      → find_job id js ≡ some r
      → P (change r)
      → All P (update_job id change js)
  unfolding update_job find_job
  All-update_job id change [] r all h new = tt
  All-update_job id change (j ∷ js) r all h new = elim (Bool-cases (j.id === id)) [
    | inl e ↦ rw e (subst (λ x. P (change x)) (sym (found_here j r _ _ e h)) new, all.1)
    | inr e ↦ rw e (all.0, All-update_job id change js r all.1 (found_later j _ r _ e h) new)
  ]

  pub All-change_first :
      (limit : ℕ) (test : Job → Bool) (change : Job → Job) (js : List Job)
      → ((j : Job) → test j ≡ true → P j → P (change j))
      → All P js
      → All P (change_first limit test change js)
  unfolding change_first
  All-change_first zero test change js keeps all = all
  All-change_first (suc limit) test change [] keeps all = tt
  All-change_first (suc limit) test change (j ∷ js) keeps all = elim (Bool-cases (test j)) [
    | inl e ↦ rw e (keeps j e all.0, All-change_first limit test change js keeps all.1)
    | inr e ↦ rw e (all.0, All-change_first (suc limit) test change js keeps all.1)
  ]

pub ids-update_job :
    (id : String) (change : Job → Job) (js : List Job)
    → ((j : Job) → (change j).id ≡ j.id)
    → ids (update_job id change js) ≡ ids js
unfolding update_job
ids-update_job id change [] same = refl
ids-update_job id change (j ∷ js) same = ground (arith, same j, ids-update_job id change js same)

pub ids-change_first :
    (limit : ℕ) (test : Job → Bool) (change : Job → Job) (js : List Job)
    → ((j : Job) → (change j).id ≡ j.id)
    → ids (change_first limit test change js) ≡ ids js
unfolding change_first
ids-change_first zero test change js same = refl
ids-change_first (suc limit) test change [] same = refl
ids-change_first (suc limit) test change (j ∷ js) same = ground (
  arith,
  same j,
  ids-change_first limit test change js same,
  ids-change_first (suc limit) test change js same,
)

pub includes-append_left :
    (js : List Job) (c : Job) (t : String)
    → includes (ids js) t ≡ true
    → includes (ids (js ++ c ∷ [])) t ≡ true
includes-append_left [] c t h = cc
includes-append_left (j ∷ js) c t h = ground (arith, includes-append_left js c t)

pub includes-append_new : (js : List Job) (c : Job) → includes (ids (js ++ c ∷ [])) c.id ≡ true
includes-append_new [] c = ground (arith, eq_iff c.id c.id)
includes-append_new (j ∷ js) c = ground (arith, includes-append_new js c)

includes-append_other :
    (js : List Job) (c : Job) (t : String)
    → includes (ids js) t ≡ false
    → t ≢ c.id
    → includes (ids (js ++ c ∷ [])) t ≡ false
includes-append_other [] c t h n = ground (arith, eq_iff t c.id)
includes-append_other (j ∷ js) c t h n =
    ground (arith, includes-append_other js c t (ground arith) n)

-- A job that is not found has a new id.
pub find_job-none :
    (id : String) (js : List Job) → find_job id js ≡ none → includes (ids js) id ≡ false
unfolding find_job
find_job-none id [] h = refl
find_job-none id (j ∷ js) h = ground (arith, find_job-none id js, eq_iff j.id id, eq_iff id j.id)

pub Distinct-append :
    (js : List Job) (c : Job)
    → Distinct (ids js)
    → includes (ids js) c.id ≡ false
    → Distinct (ids (js ++ c ∷ []))
Distinct-append [] c d h = (refl, tt)
Distinct-append (j ∷ js) c d h = (
  includes-append_other js c j.id d.0 (λ e. ground (arith, eq_iff c.id j.id, eq_iff j.id c.id)),
  Distinct-append js c d.1 (ground arith),
)

pub find_job-update_other :
    (id other : String) (change : Job → Job) (js : List Job)
    → ((j : Job) → (change j).id ≡ j.id)
    → (other === id) ≡ false
    → find_job other (update_job id change js) ≡ find_job other js
unfolding find_job update_job
find_job-update_other id other change [] keeps h = refl
find_job-update_other id other change (j ∷ js) keeps h = ground (
  arith,
  keeps j,
  find_job-update_other id other change js keeps h,
  eq_iff j.id id,
  eq_iff j.id other,
  eq_iff other id,
)

pub find_job-append :
    (id : String) (js : List Job) (c j : Job)
    → find_job id js ≡ some j
    → find_job id (js ++ c ∷ []) ≡ some j
unfolding find_job
find_job-append id [] c j h = cc
find_job-append id (r ∷ js) c j h = elim (Bool-cases (r.id === id)) [
  | inl e ↦ rw e (rw e at h)
  | inr n ↦ rw n (find_job-append id js c j (rw n at h))
]

-- A job that fails the test is found as it was.
pub find_job-change_first :
    (limit : ℕ) (test : Job → Bool) (change : Job → Job) (id : String) (js : List Job) (j : Job)
    → ((x : Job) → (change x).id ≡ x.id)
    → test j ≡ false
    → find_job id js ≡ some j
    → find_job id (change_first limit test change js) ≡ some j
unfolding find_job change_first
find_job-change_first zero test change id js j keeps t h = h
find_job-change_first (suc limit) test change id [] j keeps t h = cc
find_job-change_first (suc limit) test change id (x ∷ js) j keeps t h =
    elim (Bool-cases (x.id === id)) [
      | inl e ↦
          let same : x ≡ j = found_here x j _ _ e h in
          let spared : test x ≡ false = ap test same ∙ t in rw (spared, e) (ap some same)
      | inr n ↦ elim (Bool-cases (test x)) [
        | inl e ↦
            rw (e, keeps x, n)
              (find_job-change_first limit test change id js j keeps t (found_later x _ j _ n h))
        | inr e ↦
            rw (e, n)
              (find_job-change_first (suc limit) test change id js j keeps t
                (found_later x _ j _ n h))
      ]
    ]

pub All-update_each :
    (P : Job → Type 0) (id : String) (change : Job → Job) (js : List Job)
    → ((j : Job) → P j → P (change j))
    → All P js
    → All P (update_job id change js)
unfolding update_job
All-update_each P id change [] keeps all = tt
All-update_each P id change (j ∷ js) keeps all = elim (Bool-cases (j.id === id)) [
  | inl e ↦ rw e (keeps j all.0, all.1)
  | inr n ↦ rw n (all.0, All-update_each P id change js keeps all.1)
]
