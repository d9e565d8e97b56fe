-- ===== src/Audit/Json.antt =====
-- `canonicalize` and `stableSerialize` of packages/audit/src/foundation.js, with the part of
-- JSON.stringify that they use. Keys are sorted by code point, and none is an array index.
use Prim.Native.String.{compare}
use Prim.Native.String
use Prim.Native.Char.{Char, code}
use Prim.Native.Nat.{Ordering}
use xygo_aec.Base.{
  ℕ, ◌/◌, ◌%◌, ◌+◌, String, Bool, true, false, ◌≡◌, refl, ◌⧺◌, decimal, if◌then◌else◌, ltb, ◌==◌,
  Value, Values, Fields, undefined, null, bool, num, str, arr, obj, nil, cons, field, end,
}

abbrev text_le : String → String → Bool
text_le s t = elim (compare s t) [ Ordering.gt ↦ false | _ ↦ true ]

insert_field : String → Value → Fields → Fields
insert_field k v end = field k v end
insert_field k v (field j w fs) =
    if text_le k j then field k v (field j w fs) else field j w (insert_field k v fs)

unfoldable mutual
  unfolding insert_field

  pub canonicalize : Value → Value
  canonicalize undefined = undefined
  canonicalize null = null
  canonicalize (bool b) = bool b
  canonicalize (num n) = num n
  canonicalize (str s) = str s
  canonicalize (arr xs) = arr (canonical_items xs)
  canonicalize (obj fs) = obj (canonical_fields fs)

  pub canonical_items : Values → Values
  canonical_items nil = nil
  canonical_items (cons x xs) = cons (canonicalize x) (canonical_items xs)

  pub canonical_fields : Fields → Fields
  canonical_fields end = end
  canonical_fields (field k v fs) = insert_field k (canonicalize v) (canonical_fields fs)

hex_digit : ℕ → String
hex_digit n = String.slice "0123456789abcdef" n (n + 1)

escape : Char → String
unfolding hex_digit
escape c =
    let n = code c in
    if n == 34
    then "\\\""
    else if n == 92
    then "\\\\"
    else if n == 8
    then "\\b"
    else if n == 9
    then "\\t"
    else if n == 10
    then "\\n"
    else if n == 12
    then "\\f"
    else if n == 13
    then "\\r"
    else if ltb n 32
    then "\\u00" ⧺ hex_digit (n / 16) ⧺ hex_digit (n % 16)
    else String.◌∷◌ c ""

escape_all : String → String
unfolding escape
escape_all String.[] = ""
escape_all (String.◌∷◌ c s) = escape c ⧺ escape_all s

unfoldable pub quote : String → String
unfolding escape_all
quote s = "\"" ⧺ escape_all s ⧺ "\""

-- A comma before every member but the first.
abbrev comma : Bool → String
comma true = ""
comma false = ","

unfoldable mutual
  unfolding quote decimal

  -- An undefined element of an array is written as null, and an undefined field is left out.
  pub stringify : Value → String
  stringify undefined = "null"
  stringify null = "null"
  stringify (bool true) = "true"
  stringify (bool false) = "false"
  stringify (num n) = decimal n
  stringify (str s) = quote s
  stringify (arr xs) = "[" ⧺ stringify_items true xs ⧺ "]"
  stringify (obj fs) = "{" ⧺ stringify_fields true fs ⧺ "}"

  pub stringify_items : Bool → Values → String
  stringify_items first nil = ""
  stringify_items first (cons x xs) = comma first ⧺ stringify x ⧺ stringify_items false xs

  pub stringify_fields : Bool → Fields → String
  stringify_fields first end = ""
  stringify_fields first (field k undefined fs) = stringify_fields first fs
  stringify_fields first (field k v fs) =
      comma first ⧺ quote k ⧺ ":" ⧺ stringify v ⧺ stringify_fields false fs

unfoldable pub stable_serialize : Value → String
unfolding canonicalize stringify
stable_serialize v = stringify (canonicalize v)

stable_serialize_sample :
    stable_serialize (
      obj (
        field "b"
          (arr (cons (num 2) (cons undefined nil)))
          (field "a" (obj (field "y" (str "q\"") (field "x" null end))) (field "c" undefined end))))
    ≡ "{\"a\":{\"x\":null,\"y\":\"q\\\"\"},\"b\":[2,null]}"
unfolding stable_serialize
stable_serialize_sample = refl
