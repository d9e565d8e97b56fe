-- ===== src/Repositories/Maps.antt =====
-- A Map of JavaScript with texts for keys, as its entries in the order in which they were put in.
use xygo_aec.Base.{
  String, Bool, true, false, List, [], ◌∷◌, ◌++◌, Option, none, some, ◌===◌, ===_refl, eq_iff,
  if◌then◌else◌, ◌≡◌, refl, ap, arith, Bool-cases, inl, inr,
}

module _ {A : Type 0} where
  -- `map.get(key)`
  abbrev pub get : String → List (String × A) → Option A
  get key [] = none
  get key ((k, a) ∷ rest) = if k === key then some a else get key rest

  abbrev pub is_some : Option A → Bool
  is_some none = false
  is_some (some a) = true

  -- `map.has(key)`
  abbrev pub has : String → List (String × A) → Bool
  has key entries = is_some (get key entries)

  -- `map.set(key, value)`: a key that is there keeps its place.
  abbrev pub set : String → A → List (String × A) → List (String × A)
  set key a [] = (key, a) ∷ []
  set key a ((k, b) ∷ rest) = if k === key then (k, a) ∷ rest else (k, b) ∷ set key a rest

  -- `Array.from(map.values())`
  abbrev pub values : List (String × A) → List A
  values [] = []
  values ((k, a) ∷ rest) = a ∷ values rest

  -- A function, changed at one key.
  abbrev pub update : (String → Option A) → String → A → String → Option A
  update f key a k = if key === k then some a else f k

  pub get-set :
      (key : String) (a : A) (entries : List (String × A)) (k : String)
      → get k (set key a entries) ≡ update (λ j. get j entries) key a k
  get-set key a [] k = refl
  get-set key a ((j, b) ∷ rest) k =
      ground (arith, get-set key a rest k, eq_iff j key, eq_iff j k, eq_iff key k)

  pub has-set :
      (key : String) (a : A) (entries : List (String × A)) → get key (set key a entries) ≡ some a
  has-set key a entries = rw (get-set key a entries key, ===_refl key) refl

  -- A new key is put at the end.
  pub set_new :
      (key : String) (a : A) (entries : List (String × A))
      → has key entries ≡ false
      → values (set key a entries) ≡ values entries ++ a ∷ []
  set_new key a [] h = refl
  set_new key a ((k, b) ∷ rest) h = elim (Bool-cases (k === key)) [
    | inl e ↦ absurd (taken e)
    | inr n ↦ rw n (ap (λ vs. b ∷ vs) (set_new key a rest (rw n at h)))
  ]
    where
      taken : (k === key) ≡ true → ⊥
      taken e = let h' : is_some (some b) ≡ false = rw e at h in cc
