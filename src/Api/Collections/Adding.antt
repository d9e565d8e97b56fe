-- ===== src/Api/Collections/Adding.antt =====
-- One new record in the list of its tenant, and the same lists for everybody else, over the repository
-- of apps/api/src/repositories/memory.js.
use xygo_aec.Base.{
  String, Bool, true, false, List, [], ◌∷◌, ◌++◌, map, keep, Result, ◌===◌, ===_refl, str, ◌≡◌, ◌⊎◌,
  inl, inr, sym, ap, ◌∙◌, subst,
}
use xygo_aec.Repositories.{Repository, Item}
use xygo_aec.Repositories.Maps.{set, values}
use xygo_aec.Api.Collections.Table.{Segment, list_collection}
use xygo_aec.Api.Collections.Listing.{Inserted, listed, unlisted}

-- The list of the tenant has the record as its last, and no other tenant sees a change in any list.
pub record Added (s : Segment) (r r' : Repository) (t : String) (item : Item) : Type 0 where
  pub own : list_collection s r' t ≡ list_collection s r t ++ item ∷ []
  pub isolated :
      (s' : Segment) (t' : String)
      → (t === t') ≡ false
      → list_collection s' r' t' ≡ list_collection s' r t'

-- The list of a collection does not depend on the store of another.
abbrev Apart : Segment → Repository → Repository → Type 0
Apart s r r' =
    (s' : Segment) (t : String) → (s' ≡ s) ⊎ (list_collection s' r' t ≡ list_collection s' r t)

module _ {A : Type 0} (s : Segment) (tag : A → Item) (owns : String → A → Bool) (id_of : A → String)
    (built : Result A) (store : List (String × A)) (into : List (String × A) → Repository)
    (r r' : Repository) (t : String)
    (lists : (es : List (String × A)) (u : String)
      → list_collection s (into es) u ≡ map tag (keep (owns u) (values es)))
    (here : (u : String) → list_collection s r u ≡ map tag (keep (owns u) (values store))) where
  pub add_lem :
      (x : A) (item : Item)
      → Inserted built id_of store into r' x
      → item ≡ tag x
      → owns t x ≡ true
      → ((u : String) → (t === u) ≡ false → owns u x ≡ false)
      → ((s' : Segment) (u : String)
          → (t === u) ≡ false
          → (s' ≡ s)
            ⊎ (list_collection s' (into (set (id_of x) x store)) u ≡ list_collection s' r u))
      → Added s r r' t item
  add_lem x item i e mine others apart =
      subst (λ q. Added s r q t item) (sym i.after)
        (subst (λ y. Added s r (into (set (id_of x) x store)) t y) (sym e)
          (record {
            own =
                lists (set (id_of x) x store) t
                ∙ listed tag (owns t) store (id_of x) x i.free mine
                ∙ ap (λ ys. ys ++ tag x ∷ []) (sym (here t));
            isolated = λ s' u far. by_case s' u far (apart s' u far);
          }))
    where
      by_case :
          (s' : Segment) (u : String)
          → (t === u) ≡ false
          → (s' ≡ s)
            ⊎ (list_collection s' (into (set (id_of x) x store)) u ≡ list_collection s' r u)
          → list_collection s' (into (set (id_of x) x store)) u ≡ list_collection s' r u
      by_case s' u far (inr same) = same
      by_case s' u far (inl e) =
          subst (λ z. list_collection z (into (set (id_of x) x store)) u ≡ list_collection z r u)
            (sym e)
            (lists (set (id_of x) x store) u
              ∙ unlisted tag (owns u) store (id_of x) x i.free (others u far)
              ∙ sym (here u))

str-injective : (s t : String) → str s ≡ str t → s ≡ t
str-injective s t h = cc

-- A record of the tenant, by its field.
module _ (t v : String) (e : str t ≡ str v) where
  pub is_mine : (v === t) ≡ true
  is_mine = subst (λ u. (u === t) ≡ true) (str-injective t v e) (===_refl t)

  pub is_not_theirs : (u : String) → (t === u) ≡ false → (v === u) ≡ false
  is_not_theirs u far = subst (λ w. (w === u) ≡ false) (str-injective t v e) far
