-- ===== src/FileStorage/Keys.antt =====
-- Storage keys, as packages/file-storage/src/index.js makes them and as its local storage takes them.
use Prim.Native.Char.{Char, code}
use text.Mathlib.TextLemmas.{nil-append, cons-append}
use xygo_aec.Base.{
  ℕ, zero, suc, String, Bool, true, false, not, ◌&&◌, ◌⧺◌, ◌===◌, ◌==◌, to_lower, some,
  if◌then◌else◌, ◌≡◌, refl, ap, ◌∙◌, arith, Bool-cases, inl, inr,
}
use xygo_aec.FileStorage.{
  is_key_character, replace_runs, drop_dashes, drop_end_dashes, before_end, slice, tenant_prefix,
  or_tenant, KeyScan, tenant_start, tenant_part, id_start, id_part, scan_key, scan_key_character,
  is_id_character, is_local_key, after_prefix, is_complete, storage_key_of,
}

-- Every character passes a test.
abbrev pub every_character : (Char → Bool) → String → Bool
every_character p String.[] = true
every_character p (String.◌∷◌ c s) = p c && every_character p s

-- Every character is a lower-case letter, a digit, an underscore or a dash.
abbrev pub HasKeyCharacters : String → Type 0
HasKeyCharacters s = every_character is_key_character s ≡ true

placed_keys :
    (b begun : Bool) (c : Char) (rest : String)
    → is_key_character c ≡ b
    → HasKeyCharacters rest
    → HasKeyCharacters
        (if b then String.◌∷◌ c rest else if begun then rest else String.◌∷◌ "-" rest)
unfolding is_key_character
placed_keys true begun c rest e h = rw (e, h) refl
placed_keys false true c rest e h = h
placed_keys false false c rest e h = h

replace_runs-HasKeyCharacters :
    (begun : Bool) (s : String) → HasKeyCharacters (replace_runs begun s)
unfolding replace_runs
replace_runs-HasKeyCharacters begun String.[] = refl
replace_runs-HasKeyCharacters begun (String.◌∷◌ c s) =
    placed_keys (is_key_character c) begun c _ refl
      (replace_runs-HasKeyCharacters (not (is_key_character c)) s)

drop_dashes-HasKeyCharacters : (s : String) → HasKeyCharacters s → HasKeyCharacters (drop_dashes s)
unfolding drop_dashes
drop_dashes-HasKeyCharacters String.[] h = refl
drop_dashes-HasKeyCharacters (String.◌∷◌ c s) h = ground (arith, drop_dashes-HasKeyCharacters s)

before_end-HasKeyCharacters :
    (c : Char) (s : String)
    → is_key_character c ≡ true
    → HasKeyCharacters s
    → HasKeyCharacters (before_end c s)
before_end-HasKeyCharacters c String.[] e h = elim (Bool-cases (code c == 45)) [
  | inl dash ↦ rw dash refl
  | inr other ↦ rw (other, e) refl
]
before_end-HasKeyCharacters c (String.◌∷◌ d s) e h = rw (e, h) refl

drop_end_dashes-HasKeyCharacters :
    (s : String) → HasKeyCharacters s → HasKeyCharacters (drop_end_dashes s)
unfolding drop_end_dashes
drop_end_dashes-HasKeyCharacters String.[] h = refl
drop_end_dashes-HasKeyCharacters (String.◌∷◌ c s) h =
    before_end-HasKeyCharacters c (drop_end_dashes s) (ground arith)
      (drop_end_dashes-HasKeyCharacters s (ground arith))

slice-HasKeyCharacters : (n : ℕ) (s : String) → HasKeyCharacters s → HasKeyCharacters (slice n s)
unfolding slice
slice-HasKeyCharacters zero s h = refl
slice-HasKeyCharacters (suc n) String.[] h = refl
slice-HasKeyCharacters (suc n) (String.◌∷◌ c s) h = ground (arith, slice-HasKeyCharacters n s)

scan_key-append : (k : KeyScan) (s t : String) → scan_key k (s ⧺ t) ≡ scan_key (scan_key k s) t
unfolding scan_key
scan_key-append k String.[] t = rw (nil-append t) refl
scan_key-append k (String.◌∷◌ c s) t =
    rw (cons-append c s t) (scan_key-append (scan_key_character k c) s t)

key_character :
    (c : Char) → is_key_character c ≡ true → scan_key_character tenant_part c ≡ tenant_part
unfolding scan_key_character is_key_character
key_character c h = ground arith

scan_key-tenant : (s : String) → HasKeyCharacters s → scan_key tenant_part s ≡ tenant_part
unfolding scan_key
scan_key-tenant String.[] h = refl
scan_key-tenant (String.◌∷◌ c s) h =
    rw (key_character c (ground arith)) (scan_key-tenant s (ground arith))

scan_key-start :
    (s : String) → HasKeyCharacters s → (s === "") ≡ false → scan_key tenant_start s ≡ tenant_part
unfolding scan_key scan_key_character
scan_key-start String.[] h e = cc
scan_key-start (String.◌∷◌ c s) h e =
    let first : is_key_character c ≡ true = ground arith in
    rw first (scan_key-tenant s (ground arith))

scan_key-id : (s : String) → every_character is_id_character s ≡ true → scan_key id_part s ≡ id_part
unfolding scan_key scan_key_character
scan_key-id String.[] h = refl
scan_key-id (String.◌∷◌ c s) h =
    let first : is_id_character c ≡ true = ground arith in rw first (scan_key-id s (ground arith))

scan_key-id_start :
    (s : String)
    → every_character is_id_character s ≡ true
    → (s === "") ≡ false
    → scan_key id_start s ≡ id_part
unfolding scan_key scan_key_character
scan_key-id_start String.[] h e = cc
scan_key-id_start (String.◌∷◌ c s) h e =
    let first : is_id_character c ≡ true = ground arith in rw first (scan_key-id s (ground arith))

after_prefix-append : (p s : String) → after_prefix p (p ⧺ s) ≡ some s
unfolding after_prefix
after_prefix-append String.[] s = rw (nil-append s) refl
after_prefix-append (String.◌∷◌ c p) s =
    rw (cons-append c p s) (ground (arith, after_prefix-append p s))

or_tenant-HasKeyCharacters :
    (s : String)
    → HasKeyCharacters s
    → HasKeyCharacters (or_tenant s) × ((or_tenant s === "") ≡ false)
unfolding is_key_character
or_tenant-HasKeyCharacters s h = elim (Bool-cases (s === "")) [
  | inl e ↦ rw e (refl, refl)
  | inr e ↦ rw e (h, e)
]

scan_key-parts :
    (a b id : String)
    → HasKeyCharacters a
    → (a === "") ≡ false
    → HasKeyCharacters b
    → every_character is_id_character id ≡ true
    → (id === "") ≡ false
    → scan_key tenant_start ((a ⧺ "-" ⧺ b) ⧺ "/files/" ⧺ id) ≡ id_part
unfolding scan_key scan_key_character is_key_character
scan_key-parts a b id ha na hb hi ni =
    scan_key-append tenant_start (a ⧺ "-" ⧺ b) ("/files/" ⧺ id)
    ∙ ap (λ k. scan_key k ("/files/" ⧺ id))
        (scan_key-append tenant_start a ("-" ⧺ b)
          ∙ ap (λ k. scan_key k ("-" ⧺ b)) (scan_key-start a ha na)
          ∙ scan_key-append tenant_part "-" b
          ∙ scan_key-tenant b hb)
    ∙ scan_key-append tenant_part "/files/" id
    ∙ scan_key-id_start id hi ni

-- The key under which an upload is stored is one that the local storage takes, whatever the name of the
-- tenant is, if the digest is of the characters of a key and the id of those of a UUID, and not empty.
pub storage_key_of-local :
    (digest : String → String) (tenant_id id : String)
    → HasKeyCharacters (digest tenant_id)
    → every_character is_id_character id ≡ true
    → (id === "") ≡ false
    → is_local_key (storage_key_of digest tenant_id id) ≡ true
unfolding is_local_key tenant_prefix
storage_key_of-local digest tenant_id id d i n =
    let base : String =
      slice 48 (drop_end_dashes (drop_dashes (replace_runs false (to_lower tenant_id)))) in
    let keyed : HasKeyCharacters base = slice-HasKeyCharacters 48 _ (
      drop_end_dashes-HasKeyCharacters _ (
        drop_dashes-HasKeyCharacters _
          (replace_runs-HasKeyCharacters false (to_lower tenant_id)))) in
    let (whole, filled) = or_tenant-HasKeyCharacters base keyed in
    rw (after_prefix-append "tenants/" (tenant_prefix digest tenant_id ⧺ "/files/" ⧺ id)) (
      ap is_complete (
        scan_key-parts (or_tenant base) (slice 12 (digest tenant_id)) id whole filled
          (slice-HasKeyCharacters 12 (digest tenant_id) d) i n))
