-- ===== src/Api/Collections/Listing.antt =====
-- What the lists of the collections show after a record was created, over the repository of
-- apps/api/src/repositories/memory.js.
use mathlib.Core.List.{append-nil, map-append}
use xygo_aec.Base.{
  String, Bool, true, false, List, [], ◌∷◌, ◌++◌, map, keep, Result, ok, err, ◌>>=◌, if◌then◌else◌,
  ◌≡◌, refl, sym, ap, ◌∙◌, ok-injective, bind_inversion,
}
use xygo_aec.Repositories.{Repository, Item}
use xygo_aec.Repositories.Maps.{has, set, values, set_new}
use xygo_aec.Repositories.Memory.{insert_new}
use xygo_aec.Api.Collections.{Created}
use xygo_aec.Api.Collections.Table.{written}

keep-append :
    {A : Type 0} (p : A → Bool) (xs : List A) (x : A)
    → keep p (xs ++ x ∷ []) ≡ keep p xs ++ (if p x then x ∷ [] else [])
keep-append p [] x = refl
keep-append p (y ∷ ys) x = by_test (p y) (keep-append p ys x)
  where
    by_test :
        (b : Bool)
        → keep p (ys ++ x ∷ []) ≡ keep p ys ++ (if p x then x ∷ [] else [])
        → (if b then y ∷ keep p (ys ++ x ∷ []) else keep p (ys ++ x ∷ []))
          ≡ (if b then y ∷ keep p ys else keep p ys) ++ (if p x then x ∷ [] else [])
    by_test true ih = ap (λ zs. y ∷ zs) ih
    by_test false ih = ih

-- A new record in the list of those that pass a test.
module _ {A : Type 0} (tag : A → Item) (p : A → Bool) (store : List (String × A)) (id : String)
    (x : A) (free : has id store ≡ false) where
  grown : keep p (values (set id x store)) ≡ keep p (values store) ++ (if p x then x ∷ [] else [])
  grown = ap (keep p) (set_new id x store free) ∙ keep-append p (values store) x

  pub listed :
      p x ≡ true
      → map tag (keep p (values (set id x store))) ≡ map tag (keep p (values store)) ++ tag x ∷ []
  listed h = ap (map tag) (rw h at grown) ∙ map-append tag (keep p (values store)) (x ∷ [])

  pub unlisted :
      p x ≡ false → map tag (keep p (values (set id x store))) ≡ map tag (keep p (values store))
  unlisted h = ap (map tag) ((rw h at grown) ∙ append-nil (keep p (values store)))

-- A creation that did not throw: the record was made, its id was free, and it was put into the store.
pub record Inserted {A : Type 0} (built : Result A) (id_of : A → String) (store : List (String × A))
    (into : List (String × A) → Repository) (r' : Repository) (x : A) : Type 0 where
  pub made : built ≡ ok x
  pub free : has (id_of x) store ≡ false
  pub after : r' ≡ into (set (id_of x) x store)

module _ {A : Type 0} (tag : A → Item) (built : Result A) (id_of : A → String)
    (store : List (String × A)) (into : List (String × A) → Repository) (message : String) where
  insert_new-ok :
      (key : String) (x : A) (taken : Bool) (es : List (String × A))
      → has key store ≡ taken
      → insert_new message key x store ≡ ok es
      → (taken ≡ false) × (es ≡ set key x store)
  unfolding insert_new
  insert_new-ok key x true es h e = let e' = rw h at e in cc
  insert_new-ok key x false es h e = (refl, sym (ok-injective (rw h at e)))

  written-ok :
      (m : Result (Repository × A)) (r' : Repository) (c : Created Item)
      → written tag id_of m ≡ ok (r', c)
      → (x : A) × (m ≡ ok (r', x)) × (c.item ≡ tag x)
  written-ok (err e) r' c h = cc
  written-ok (ok (r, x)) r' c h =
      let same = ok-injective h in
      (x, ap (λ p. ok (p, x)) (ap (λ p. p.0) same), sym (ap (λ p. p.1.item) same))

  pub created_inversion :
      (r' : Repository) (c : Created Item)
      → written tag id_of
          (built >>= λ x. insert_new message (id_of x) x store >>= λ es. ok (into es, x))
        ≡ ok (r', c)
      → (x : A) × Inserted built id_of store into r' x × (c.item ≡ tag x)
  created_inversion r' c h =
      let (x, e, item) = written-ok _ r' c h in
      let (y, made, e1) = bind_inversion built _ e in
      let (es, put, e2) = bind_inversion (insert_new message (id_of y) y store) _ e1 in
      let (free, after) = insert_new-ok (id_of y) y _ es refl put in
      let same = ok-injective e2 in
      (
        y,
        record { made = made; free = free; after = sym (ap (λ p. p.0) same) ∙ ap into after },
        item ∙ ap tag (sym (ap (λ p. p.1) same)),
      )
