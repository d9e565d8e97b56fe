-- ===== src/Api/Keys.antt =====
-- `idempotencyKeyFor` of apps/api/src/reliability/idempotency.js.
use Prim.Native.Char.{Char, code}
use text.Mathlib.TextLemmas.{
  nil-append, cons-append, append_cancel_left, head-eq_of_cons-eq, tail-eq_of_cons-eq,
}
use xygo_aec.Base.{String, Bool, true, not, ◌&&◌, ◌⧺◌, ◌==◌, ◌≡◌, refl, ap, sym, ◌∙◌, arith}

unfoldable pub idempotency_key_for : String → String → String → String
idempotency_key_for tenant_id path client_key = tenant_id ⧺ ":" ⧺ path ⧺ ":" ⧺ client_key

-- No colon stands in the text.
abbrev pub has_no_colon : String → Bool
has_no_colon String.[] = true
has_no_colon (String.◌∷◌ c s) = not (code c == 58) && has_no_colon s

colon_no_name : (d : Char) (t v : String) → code d ≡ 58 → has_no_colon (String.◌∷◌ d t) ≡ true → ⊥
colon_no_name d t v e q = ground arith

tail_has_no_colon :
    (c : Char) (s : String) → has_no_colon (String.◌∷◌ c s) ≡ true → has_no_colon s ≡ true
tail_has_no_colon c s p = ground arith

at_colon : (u : String) → (":" ⧺ u) ≡ String.◌∷◌ ":" u
at_colon u = cons-append ":" "" u ∙ ap (String.◌∷◌ ":") (nil-append u)

-- A text before the first colon is determined.
split_colon :
    (s t u v : String)
    → has_no_colon s ≡ true
    → has_no_colon t ≡ true
    → (s ⧺ ":" ⧺ u) ≡ (t ⧺ ":" ⧺ v)
    → (s ≡ t) × (u ≡ v)
split_colon String.[] String.[] u v p q e =
    (refl, append_cancel_left ":" u v (sym (nil-append (":" ⧺ u)) ∙ e ∙ nil-append (":" ⧺ v)))
split_colon String.[] (String.◌∷◌ d t) u v p q e = absurd (
    colon_no_name d t v
      (sym (
        ap code (
          head-eq_of_cons-eq
            (sym (at_colon u) ∙ sym (nil-append (":" ⧺ u)) ∙ e ∙ cons-append d t (":" ⧺ v)))))
      q)
split_colon (String.◌∷◌ c s) String.[] u v p q e = absurd (
    colon_no_name c s u
      (ap code (
        head-eq_of_cons-eq
          (sym (cons-append c s (":" ⧺ u)) ∙ e ∙ nil-append (":" ⧺ v) ∙ at_colon v)))
      p)
split_colon (String.◌∷◌ c s) (String.◌∷◌ d t) u v p q e =
    let k = sym (cons-append c s (":" ⧺ u)) ∙ e ∙ cons-append d t (":" ⧺ v) in
    let (same, rest) =
      split_colon s t u v (tail_has_no_colon c s p) (tail_has_no_colon d t q)
        (tail-eq_of_cons-eq k) in
    (ap (λ x. String.◌∷◌ x s) (head-eq_of_cons-eq k) ∙ ap (String.◌∷◌ d) same, rest)

-- Where no tenant and no path has a colon, one storage key belongs to one tenant, one path and one
-- key of the client.
pub idempotency_key_for-injective :
    (t u p q k l : String)
    → has_no_colon t ≡ true
    → has_no_colon u ≡ true
    → has_no_colon p ≡ true
    → has_no_colon q ≡ true
    → idempotency_key_for t p k ≡ idempotency_key_for u q l
    → (t ≡ u) × (p ≡ q) × (k ≡ l)
unfolding idempotency_key_for
idempotency_key_for-injective t u p q k l t_free u_free p_free q_free e =
    let (same, rest) = split_colon t u (p ⧺ ":" ⧺ k) (q ⧺ ":" ⧺ l) t_free u_free e in
    let (path, client) = split_colon p q k l p_free q_free rest in (same, path, client)
