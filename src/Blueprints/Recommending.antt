-- ===== src/Blueprints/Recommending.antt =====
-- Which modules packages/platform-blueprint/src/index.js recommends, and in which steps they are built.
use mathlib.Core.Path.{fun_ext}
use xygo_aec.Base.{
  ℕ, ◌+◌, String, Bool, true, false, not, ◌&&◌, ◌||◌, List, [], ◌∷◌, ◌++◌, keep, length, Option,
  none, some, includes, ◌===◌, ===_refl, if◌then◌else◌, ◌≡◌, refl, sym, ap, ◌∙◌, arith, eq_of_===,
  eq_iff, subst, Bool-cases, inl, inr,
}
use xygo_aec.Blueprints.{
  Intake, Module, Reason, reason_for, is_some, module_by_key, module_library, add, add_each,
  selections, matches, baseline, Recommendation, recommended, recommended_with, recommend_modules,
  module_keys, BuildStep, build_order, number_steps, next_build_steps,
}

-- The first of two.
abbrev first_of : Option String → Option String → Option String
first_of none other = other
first_of (some r) other = some r

reason_for-append :
    (key : String) (rs qs : List Reason)
    → reason_for key (rs ++ qs) ≡ first_of (reason_for key rs) (reason_for key qs)
reason_for-append key [] qs = refl
reason_for-append key ((k, r) ∷ rs) qs = ground (arith, reason_for-append key rs qs)

-- The rationale that counts for a key: the first, if the key is in the library.
abbrev counted : String → List Reason → Option String
counted key rs = if is_some (module_by_key key) then reason_for key rs else none

first_of-none : (o : Option String) → first_of o none ≡ o
first_of-none none = refl
first_of-none (some r) = refl

-- Adding for the key that is asked for, by whether the library and the Map have it.
reason_for-add_self :
    (key rationale : String) (rs : List Reason) (known : Bool) (present : Option String)
    → is_some (module_by_key key) ≡ known
    → reason_for key rs ≡ present
    → reason_for key (add rs (key, rationale))
      ≡ first_of present (if known then some rationale else none)
unfolding add
reason_for-add_self key rationale rs false present e h = rw (e, h, first_of-none present) refl
reason_for-add_self key rationale rs true (some r) e h = rw (e, h) h
reason_for-add_self key rationale rs true none e h =
    rw (e, h) (reason_for-append key rs ((key, rationale) ∷ []) ∙ rw (h, ===_refl key) refl)

add-other :
    (key k rationale : String) (rs : List Reason) (skip : Bool)
    → (k === key) ≡ false
    → reason_for key (if skip then rs else rs ++ (k, rationale) ∷ []) ≡ reason_for key rs
add-other key k rationale rs true e = refl
add-other key k rationale rs false e =
    reason_for-append key rs ((k, rationale) ∷ []) ∙ rw e (first_of-none (reason_for key rs))

abbrev nothing : Option String
nothing = none

if_none : (b : Bool) → (if b then nothing else nothing) ≡ nothing
if_none true = refl
if_none false = refl

reason_for-add :
    (key k rationale : String) (rs : List Reason)
    → reason_for key (add rs (k, rationale))
      ≡ first_of (reason_for key rs) (counted key ((k, rationale) ∷ []))
unfolding add
reason_for-add key k rationale rs = elim (Bool-cases (k === key)) [
  | inl e ↦
      subst
        (λ x.
          reason_for key (add rs (x, rationale))
          ≡ first_of (reason_for key rs) (counted key ((x, rationale) ∷ [])))
        (sym (eq_of_=== k key e))
        (rw (===_refl key) (reason_for-add_self key rationale rs _ _ refl refl))
  | inr n ↦
      rw (n, if_none (is_some (module_by_key key)), first_of-none (reason_for key rs))
        (add-other key k rationale rs (not (is_some (module_by_key k)) || is_some (reason_for k rs))
          n)
]

first_of_assoc : (a b c : Option String) → first_of (first_of a b) c ≡ first_of a (first_of b c)
first_of_assoc none b c = refl
first_of_assoc (some a) b c = refl

counted-append :
    (key : String) (rs qs : List Reason)
    → counted key (rs ++ qs) ≡ first_of (counted key rs) (counted key qs)
counted-append key rs qs = chosen-append (is_some (module_by_key key))
  where
    chosen-append :
        (b : Bool)
        → (if b then reason_for key (rs ++ qs) else none)
          ≡ first_of (if b then reason_for key rs else none) (if b then reason_for key qs else none)
    chosen-append true = reason_for-append key rs qs
    chosen-append false = refl

reason_for-add_each :
    (key : String) (rs qs : List Reason)
    → reason_for key (add_each rs qs) ≡ first_of (reason_for key rs) (counted key qs)
unfolding add_each
reason_for-add_each key rs [] =
    rw (if_none (is_some (module_by_key key)), first_of-none (reason_for key rs)) refl
reason_for-add_each key rs ((k, r) ∷ qs) =
    reason_for-add_each key (add rs (k, r)) qs
    ∙ rw
        (
          reason_for-add key k r rs,
          first_of_assoc (reason_for key rs) (counted key ((k, r) ∷ [])) (counted key qs),
          counted-append key ((k, r) ∷ []) qs,
        )
        refl

found-counted :
    (key : String) (a b c : List Reason)
    → reason_for key (add_each (add_each (add_each [] a) b) c) ≡ counted key ((a ++ b) ++ c)
found-counted key a b c =
    rw
      (
        reason_for-add_each key (add_each (add_each [] a) b) c,
        reason_for-add_each key (add_each [] a) b,
        reason_for-add_each key [] a,
        counted-append key (a ++ b) c,
        counted-append key a b,
      )
      refl

-- Each module of the library is recommended exactly if there is a reason for its key, in the order of the
-- library, and with the first reason: selected, then a trigger of its rule in the text, then the baseline
-- of the industry. No other module is.
pub recommend_modules_lem :
    (intake : Intake)
    → recommend_modules intake
      ≡ recommended
          (λ key. reason_for key ((selections intake ++ matches intake) ++ baseline intake))
          module_library
unfolding recommend_modules module_by_key
recommend_modules_lem intake =
    ap (λ reason. recommended reason module_library)
      (fun_ext (λ key. found-counted key (selections intake) (matches intake) (baseline intake)))

bit : Bool → ℕ
bit true = 1
bit false = 0

length-keep :
    (p : String → Bool) (k : String) (ks : List String)
    → length (keep p (k ∷ ks)) ≡ bit (p k) + length (keep p ks)
unfolding bit
length-keep p k ks = by_test (p k)
  where
    by_test :
        (b : Bool) → length (if b then k ∷ keep p ks else keep p ks) ≡ bit b + length (keep p ks)
    by_test true = omega arith
    by_test false = omega arith

abbrev library_keys : List Module → List String
library_keys [] = []
library_keys (m ∷ ms) = m.key ∷ library_keys ms

module_keys-recommended :
    (reason : String → Option String) (ms : List Module)
    → module_keys (recommended reason ms) ≡ keep (λ key. is_some (reason key)) (library_keys ms)
module_keys-recommended reason [] = refl
module_keys-recommended reason (m ∷ ms) =
    by_reason (reason m.key) (module_keys-recommended reason ms)
  where
    by_reason :
        (o : Option String)
        → module_keys (recommended reason ms) ≡ keep (λ key. is_some (reason key)) (library_keys ms)
        → module_keys (recommended_with m o ++ recommended reason ms) ≡ (
            if is_some o
            then m.key ∷ keep (λ key. is_some (reason key)) (library_keys ms)
            else keep (λ key. is_some (reason key)) (library_keys ms))
    by_reason none ih = ih
    by_reason (some r) ih = ap (λ ks. m.key ∷ ks) ih

length-module_keys : (rs : List Recommendation) → length (module_keys rs) ≡ length rs
length-module_keys [] = refl
length-module_keys (r ∷ rs) = omega (arith, length-module_keys rs)

length-number_steps : (n : ℕ) (ks : List String) → length (number_steps n ks) ≡ length ks
unfolding number_steps
length-number_steps n [] = refl
length-number_steps n (k ∷ ks) = omega (arith, length-number_steps (n + 1) ks)

abbrev pub step_keys : List BuildStep → List String
step_keys [] = []
step_keys (s ∷ ss) = s.module_key ∷ step_keys ss

step_keys-number_steps : (n : ℕ) (ks : List String) → step_keys (number_steps n ks) ≡ ks
unfolding number_steps
step_keys-number_steps n [] = refl
step_keys-number_steps n (k ∷ ks) = ap (λ x. k ∷ x) (step_keys-number_steps (n + 1) ks)

includes-keep :
    (p : String → Bool) (ks : List String) (s : String)
    → includes (keep p ks) s ≡ (includes ks s && p s)
includes-keep p [] s = refl
includes-keep p (k ∷ ks) s = ground (arith, eq_iff s k, includes-keep p ks s)

-- The keys of the library, in the order in which they are built.
same_keys : (s : String) → includes build_order s ≡ includes (library_keys module_library) s
same_keys s = ground arith

same_count :
    (p : String → Bool)
    → length (keep p build_order) ≡ length (keep p (library_keys module_library))
same_count p = omega (arith, length-keep)

module _ (intake : Intake) where
  has_reason : String → Bool
  has_reason key =
      is_some (reason_for key ((selections intake ++ matches intake) ++ baseline intake))

  keys_lem : module_keys (recommend_modules intake) ≡ keep has_reason (library_keys module_library)
  unfolding has_reason
  keys_lem =
      ap module_keys (recommend_modules_lem intake)
      ∙ module_keys-recommended
          (λ key. reason_for key ((selections intake ++ matches intake) ++ baseline intake))
          module_library

  planned_lem :
      keep (λ key. includes (module_keys (recommend_modules intake)) key) build_order
      ≡ keep has_reason build_order
  planned_lem = rw keys_lem (
      ap (λ p. keep p build_order)
        (fun_ext (λ key. includes-keep has_reason (library_keys module_library) key)))

  -- The plan of a generated blueprint has as many steps as there are recommended modules, and a step for a
  -- module exactly if the module is recommended.
  pub next_build_steps_complete :
      (length (next_build_steps (recommend_modules intake)) ≡ length (recommend_modules intake))
      × ((key : String)
          → includes (step_keys (next_build_steps (recommend_modules intake))) key
            ≡ includes (module_keys (recommend_modules intake)) key)
  unfolding next_build_steps
  next_build_steps_complete = (
    length-number_steps 0 _
        ∙ ap length planned_lem
        ∙ same_count has_reason
        ∙ sym (ap length keys_lem)
        ∙ length-module_keys (recommend_modules intake),
    λ key.
        ap (λ ks. includes ks key) (step_keys-number_steps 0 _ ∙ planned_lem)
        ∙ includes-keep has_reason build_order key
        ∙ ap (λ b. b && has_reason key) (same_keys key)
        ∙ sym (includes-keep has_reason (library_keys module_library) key)
        ∙ sym (ap (λ ks. includes ks key) keys_lem),
  )
