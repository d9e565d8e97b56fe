-- ===== src/Base/Dynamic.antt =====
-- The values of JavaScript that requests and options carry, and the checks that the packages make
-- on them: member access, truthiness, `??`, `requiredString` and `requiredArray`.
use Prim.Native.Nat.{ℕ}
use Prim.Native.String.{String}
use mathlib.Core.Path.{◌≡◌}
use mathlib.Core.Bool.{Bool, true, false, not}
use mathlib.Core.Logic.{◌↔◌}
use mathlib.Core.Option.{Option, none, some}
use mathlib.Core.List.{List}
use native.Mathlib.Omega.{arith}
use xygo_aec.Base.Tests.{if◌then◌else◌, ◌==◌, ◌===◌, includes, ===_refl}
use text.Mathlib.TextEquality.{eq_iff}
use xygo_aec.Base.Results.{Result, ok, throw, ◌>>=◌, bind_inversion}
use xygo_aec.Base.Text.{◌⧺◌, is_blank, decimal}

-- The numbers that the program stores are naturals.
mutual
  pub data Value : Type 0 where
    undefined : Value
    null : Value
    bool : Bool → Value
    num : ℕ → Value
    str : String → Value
    arr : Values → Value
    obj : Fields → Value

  pub data Values : Type 0 where
    nil : Values
    cons : Value → Values → Values

  pub data Fields : Type 0 where
    end : Fields
    field : String → Value → Fields → Fields

abbrev pub find_field : String → Fields → Value
find_field k end = undefined
find_field k (field j v fs) = if j === k then v else find_field k fs

-- `value?.k`: nothing is read from a value with no members.
abbrev pub member : Value → String → Value
member (obj fs) k = find_field k fs
member _ k = undefined

-- `!!value`
abbrev pub truthy : Value → Bool
truthy undefined = false
truthy null = false
truthy (bool b) = b
truthy (num n) = not (n == 0)
truthy (str s) = not (s === "")
truthy (arr xs) = true
truthy (obj fs) = true

-- `value ?? other`
infixr 40 ◌or_else◌
abbrev pub ◌or_else◌ : Value → Value → Value
undefined or_else d = d
null or_else d = d
bool b or_else d = bool b
num n or_else d = num n
str s or_else d = str s
arr xs or_else d = arr xs
obj fs or_else d = obj fs

-- `value === true`
abbrev pub is_true : Value → Bool
is_true (bool b) = b
is_true _ = false

-- `value === text`
abbrev pub is_text : Value → String → Bool
is_text (str s) t = s === t
is_text _ t = false

-- `Array.isArray(value)`
abbrev pub is_array : Value → Bool
is_array (arr xs) = true
is_array _ = false

-- A nullable text as a value.
abbrev pub text_or_null : Option String → Value
text_or_null none = null
text_or_null (some s) = str s

-- `SET.has(value)` for a Set of texts.
abbrev pub set_has : List String → Value → Bool
set_has ts (str s) = includes ts s
set_has ts _ = false

-- The text of a value in a template literal. The elements of an array are not shown.
abbrev pub shown : Value → String
shown undefined = "undefined"
shown null = "null"
shown (bool true) = "true"
shown (bool false) = "false"
shown (num n) = decimal n
shown (str s) = s
shown (arr xs) = ""
shown (obj fs) = "[object Object]"

-- `requiredString(value, label)`, and the text that it lets through.
unfoldable pub required_string : Value → String → Result String
required_string (str s) label = if is_blank s then throw (label ⧺ " is required.") else ok s
required_string _ label = throw (label ⧺ " is required.")

-- `requiredArray(value, label)`
unfoldable pub required_array : Value → String → Result (Unit {0})
required_array v label = if is_array v then ok tt else throw (label ⧺ " must be an array.")

-- The check lets exactly the texts through that hold more than white space.
pub required_string-eq-ok :
    (v : Value) (label s : String)
    → (required_string v label ≡ ok s) ↔ ((v ≡ str s) × (is_blank s ≡ false))
unfolding required_string
required_string-eq-ok (str t) label s = (λ h. ground arith, λ h. ground arith)
required_string-eq-ok undefined label s = (λ h. cc, λ h. absurd (ground arith))
required_string-eq-ok _ label s = (λ h. cc, λ h. absurd (ground arith))

-- `v` is the text `s`, and `s` holds more than white space.
abbrev pub IsRequired : Value → String → Type 0
IsRequired v s = (v ≡ str s) × (is_blank s ≡ false)

-- A constructor that went past a check of a required text.
pub required_string-bind {ℓ} :
    {B : Type ℓ} (v : Value) (label : String) (f : String → Result B) {b : B}
    → (required_string v label >>= f) ≡ ok b
    → (s : String) × IsRequired v s × (f s ≡ ok b)
required_string-bind v label f h =
    let (s, e, k) = bind_inversion (required_string v label) f h in
    (s, (required_string-eq-ok v label s).0 e, k)

pub is_text_sound : (v : Value) (s : String) → is_text v s ≡ true → v ≡ str s
is_text_sound (str t) s h = ground (arith, eq_iff t s)
is_text_sound undefined s h = cc
is_text_sound _ s h = cc

pub is_text_refl : (s : String) → is_text (str s) s ≡ true
is_text_refl s = ===_refl s
