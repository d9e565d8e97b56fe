-- ===== src/Base/Text.antt =====
-- The String methods that the program calls: `+`, `trim`, `toLowerCase` and `includes`.
use Prim.Native.Nat.{ℕ, zero, suc, ◌+◌, ◌/◌, ◌%◌}
use Prim.Native.Char.{Char, code}
use Prim.Native.String.{String}
use Prim.Native.String
use mathlib.Core.Path.{◌≡◌, refl}
use mathlib.Core.Bool.{Bool, true, false, ◌&&◌, ◌||◌}
use xygo_aec.Base.Tests.{if◌then◌else◌, leb, ◌==◌, ◌===◌}

-- Concatenation, as template literals do it.
infixr 66 ◌⧺◌
abbrev pub ◌⧺◌ : String → String → String
s ⧺ t = String.◌++◌ s t

-- The white space and line ends that `trim` takes off.
unfoldable pub is_space : ℕ → Bool
is_space c =
    (leb 9 c && leb c 13)
    || c == 32
    || c == 160
    || c == 5760
    || (leb 8192 c && leb c 8202)
    || (leb 8232 c && leb c 8233)
    || c == 8239
    || c == 8287
    || c == 12288
    || c == 65279

trim_start : String → String
trim_start String.[] = ""
trim_start (String.◌∷◌ c s) =
    let rest = trim_start s in if is_space (code c) then rest else String.◌∷◌ c s

put_before : Char → String → String
put_before c String.[] = if is_space (code c) then "" else String.◌∷◌ c ""
put_before c (String.◌∷◌ d s) = String.◌∷◌ c (String.◌∷◌ d s)

trim_end : String → String
trim_end String.[] = ""
trim_end (String.◌∷◌ c s) = put_before c (trim_end s)

-- `value.trim()`
unfoldable pub trim : String → String
unfolding trim_start trim_end put_before is_space
trim s = trim_end (trim_start s)

-- `value.trim() === ""`
unfoldable pub is_blank : String → Bool
unfolding trim
is_blank s = trim s === ""

is_blank_tests : (is_blank " \t" ≡ true) × (trim "  a b " ≡ "a b")
unfolding is_blank trim
is_blank_tests = (refl, refl)

-- The letter of `to` at the place where `from` has the character, or the character itself.
swap_letter : Char → String → String → Char
swap_letter c String.[] to = c
swap_letter c (String.◌∷◌ d from) String.[] = c
swap_letter c (String.◌∷◌ d from) (String.◌∷◌ e to) =
    let rest = swap_letter c from to in if code c == code d then e else rest

-- `value.toLowerCase()`, on the letters of ASCII.
unfoldable pub to_lower : String → String
unfolding swap_letter
to_lower String.[] = ""
to_lower (String.◌∷◌ c s) =
    String.◌∷◌ (swap_letter c "ABCDEFGHIJKLMNOPQRSTUVWXYZ" "abcdefghijklmnopqrstuvwxyz")
      (to_lower s)

-- `text.startsWith(part)`, by characters.
unfoldable pub has_prefix : String → String → Bool
has_prefix String.[] s = true
has_prefix (String.◌∷◌ c p) String.[] = false
has_prefix (String.◌∷◌ c p) (String.◌∷◌ d s) = (code c == code d) && has_prefix p s

-- `text.includes(part)`
unfoldable pub has_part : String → String → Bool
unfolding has_prefix
has_part p String.[] = p === ""
has_part p (String.◌∷◌ c s) = has_prefix p (String.◌∷◌ c s) || has_part p s

text_tests :
    (to_lower "Ana.Q" ≡ "ana.q") × (has_part "b c" "a b c" ≡ true) × (has_part "bc" "a b c" ≡ false)
unfolding to_lower has_part
text_tests = (refl, refl, refl)

digit : ℕ → String
digit n = String.slice "0123456789" n (n + 1)

-- The decimal digits of `n` before `rest`; `n` has fewer digits than `fuel`.
decimal_from : ℕ → ℕ → String → String
unfolding digit
decimal_from zero n rest = rest
decimal_from (suc fuel) n rest =
    let more = decimal_from fuel (n / 10) (digit (n % 10) ⧺ rest) in
    if leb n 9 then digit n ⧺ rest else more

-- `String(n)` of a natural number.
unfoldable pub decimal : ℕ → String
unfolding decimal_from
decimal n = decimal_from (suc n) n ""

decimal_tests : (decimal 0 ≡ "0") × (decimal 4096 ≡ "4096")
unfolding decimal
decimal_tests = (refl, refl)
