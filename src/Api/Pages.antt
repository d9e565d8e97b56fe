-- ===== src/Api/Pages.antt =====
-- `paginate` and `uniqueById` of apps/api/src/handlers.js.
use xygo_aec.Base.{
  ℕ, zero, suc, ◌+◌, ◌≤◌, min, String, Bool, true, false, ◌||◌, List, [], ◌∷◌, ◌++◌, Option, none,
  some, ◌===◌, ltb, length, take, keep, includes, if◌then◌else◌, Value, is_text, member, ◌≡◌, refl,
  sym, ap, ◌∙◌, arith,
}

-- `Number(text)` as `paginate` reads it: not finite or not positive, or positive with its floor.
pub data RawNumber : Type 0 where
  unusable : RawNumber
  positive : ℕ → RawNumber

abbrev pub max_page_limit : ℕ
max_page_limit = 500

unfoldable pub limit_of : RawNumber → ℕ
limit_of unusable = 50
limit_of (positive n) = min n max_page_limit

unfoldable pub offset_of : RawNumber → ℕ
offset_of unusable = 0
offset_of (positive n) = n

module _ {A : Type 0} where
  unfoldable pub drop : ℕ → List A → List A
  drop zero xs = xs
  drop (suc n) [] = []
  drop (suc n) (x ∷ xs) = drop n xs

abbrev matches_status : String → Value → Bool
matches_status status item =
    is_text (member item "status") status || is_text (member item "humanDisposition") status

-- The status that the query asks for; an empty one is none.
unfoldable pub filter_status : Option String → List Value → List Value
filter_status none items = items
filter_status (some status) items =
    if status === "" then items else keep (matches_status status) items

pub record Page : Type 0 where
  pub items : List Value
  pub total : ℕ
  pub limit : ℕ
  pub offset : ℕ
  pub next_offset : Option ℕ

unfoldable pub page_of : List Value → ℕ → ℕ → Page
unfolding drop
page_of filtered limit offset = record {
  items = take limit (drop offset filtered);
  total = length filtered;
  limit = limit;
  offset = offset;
  next_offset = if ltb (offset + limit) (length filtered) then some (offset + limit) else none;
}

unfoldable pub paginate : List Value → Option String → RawNumber → RawNumber → Page
unfolding filter_status page_of limit_of offset_of
paginate items status limit offset =
    page_of (filter_status status items) (limit_of limit) (offset_of offset)

abbrev prepend : List Value → Option (List Value) → Option (List Value)
prepend items none = none
prepend items (some rest) = some (items ++ rest)

-- The items of the pages that a client reads who follows `nextOffset` until there is none; `none` if the fuel
-- is used up while there is a next page.
unfoldable pub read_pages :
    ℕ → List Value → Option String → RawNumber → RawNumber → Option (List Value)
unfolding paginate
read_pages zero items status limit offset = none
read_pages (suc fuel) items status limit offset =
    let page = paginate items status limit offset in
    elim page.next_offset [
      | none ↦ some page.items
      | some next ↦ prepend page.items (read_pages fuel items status limit (positive next))
    ]

suc-add : (m n : ℕ) → suc (m + n) ≡ suc m + n
suc-add m n = omega arith

module _ {A : Type 0} where
  drop_nil : (n : ℕ) → Path (List A) (drop n []) []
  unfolding drop
  drop_nil zero = refl
  drop_nil (suc n) = refl

  take-drop : (n : ℕ) (xs : List A) → (take n xs ++ drop n xs) ≡ xs
  unfolding drop
  take-drop zero xs = refl
  take-drop (suc n) [] = refl
  take-drop (suc n) (x ∷ xs) = ap (λ r. x ∷ r) (take-drop n xs)

  drop-drop : (m n : ℕ) (xs : List A) → drop n (drop m xs) ≡ drop (m + n) xs
  unfolding drop
  drop-drop zero n xs = ap (λ k. drop k xs) (omega arith)
  drop-drop (suc m) n [] = drop_nil n ∙ sym (drop_nil (suc m + n))
  drop-drop (suc m) n (x ∷ xs) = drop-drop m n xs ∙ ap (λ k. drop k (x ∷ xs)) (suc-add m n)

  drop_all : (n : ℕ) (xs : List A) → length xs ≤ n → drop n xs ≡ []
  unfolding drop
  drop_all zero [] h = refl
  drop_all zero (x ∷ xs) h = absurd (omega arith)
  drop_all (suc n) [] h = refl
  drop_all (suc n) (x ∷ xs) h = drop_all n xs (omega arith)

  -- A page and what follows it.
  take-drop_from :
      (l offset : ℕ) (xs : List A)
      → (take l (drop offset xs) ++ drop (offset + l) xs) ≡ drop offset xs
  take-drop_from l offset xs =
      ap (λ r. take l (drop offset xs) ++ r) (sym (drop-drop offset l xs))
      ∙ take-drop l (drop offset xs)

append_nil : (xs : List Value) → (xs ++ []) ≡ xs
append_nil [] = refl
append_nil (x ∷ xs) = ap (λ r. x ∷ r) (append_nil xs)

-- A page whose `nextOffset` is as `page_of` gives it, and the pages that follow.
next_pages :
    (more : Bool) (next : ℕ) (read : ℕ → Option (List Value)) (items rest : List Value)
    → (more ≡ true → read next ≡ some rest)
    → (more ≡ false → [] ≡ rest)
    → (elim (if more then some next else none) [
      | none ↦ some items
      | some n ↦ prepend items (read n)
    ])
      ≡ some (items ++ rest)
next_pages true next read items rest go_on done = rw (go_on refl) refl
next_pages false next read items rest go_on done =
    rw (← done refl) (ap some (sym (append_nil items)))

before_end : (n len : ℕ) → ltb n len ≡ true → suc n ≤ len
before_end n len h = ground arith

past_end : (n len : ℕ) → ltb n len ≡ false → len ≤ n
past_end n len h = ground arith

read_pages_from :
    (fuel : ℕ) (items : List Value) (status : Option String) (limit offset : RawNumber)
    → 1 ≤ limit_of limit
    → 1 ≤ fuel
    → length (filter_status status items) ≤ offset_of offset + fuel
    → read_pages fuel items status limit offset
      ≡ some (drop (offset_of offset) (filter_status status items))
unfolding read_pages
read_pages_from zero items status limit offset some_limit some_fuel enough =
    absurd (omega (arith, some_fuel))
read_pages_from (suc fuel) items status limit offset some_limit some_fuel enough =
    let all = filter_status status items in
    let l = limit_of limit in
    let o = offset_of offset in
    next_pages (ltb (o + l) (length all)) (o + l)
      (λ n. read_pages fuel items status limit (positive n)) (take l (drop o all))
      (drop (o + l) all)
      (λ more.
        let within : suc (o + l) ≤ length all = before_end (o + l) (length all) more in
        read_pages_from fuel items status limit (positive (o + l)) some_limit
          (omega (arith, enough, some_limit, within)) (omega (arith, enough, some_limit)))
      (λ last. sym (drop_all (o + l) all (past_end (o + l) (length all) last)))
    ∙ ap some (take-drop_from l o all)

-- A client who asks for a limit of at least one and follows `nextOffset` from the first page on comes to a
-- page without one after at most as many pages as the status lets items through, or one page if it lets none
-- through, and has then read each of these items exactly once and in order.
pub read_pages-all :
    (fuel : ℕ) (items : List Value) (status : Option String) (limit : RawNumber)
    → 1 ≤ limit_of limit
    → 1 ≤ fuel
    → length (filter_status status items) ≤ fuel
    → read_pages fuel items status limit unusable ≡ some (filter_status status items)
unfolding offset_of drop
read_pages-all fuel items status limit some_limit some_fuel enough =
    read_pages_from fuel items status limit unusable some_limit some_fuel (omega (arith, enough))

-- The part of `uniqueById` behind the items whose ids were seen; items have texts for ids.
unfoldable pub unique_from : List String → List (String × Value) → List (String × Value)
unique_from seen [] = []
unique_from seen ((id, item) ∷ rest) =
    let skipped = unique_from seen rest in
    let kept = unique_from (id ∷ seen) rest in
    if (id === "") || includes seen id then skipped else (id, item) ∷ kept

unfoldable pub unique_by_id : List (String × Value) → List (String × Value)
unfolding unique_from
unique_by_id items = unique_from [] items
