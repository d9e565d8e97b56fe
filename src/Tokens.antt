-- ===== src/Tokens.antt =====
-- apps/api/src/auth/jwt.js: the verification of a signed token. The decoding of a segment (base64url and
-- JSON) and the check of a signature are parameters, as is the import of a key.
pub mod Soundness
use Prim.Native.Char.{code}
use Prim.Native.String
use xygo_aec.Base.{
  ℕ, ◌+◌, ◌/◌, ◌≤◌, ◌<◌, String, Bool, true, false, not, ◌&&◌, ◌||◌, List, [], ◌∷◌, keep, any,
  Option, none, some, Result, ok, throw_code, ◌>>=◌, ◌>>◌, includes, ◌⧺◌, ◌===◌, ◌==◌, leb, ltb,
  is_blank, if◌then◌else◌, Value, Values, nil, cons, undefined, num, str, arr, obj, member, truthy,
  is_text, shown,
}

pub record Platform : Type 0 where
  pub decode_json : String → Option Value
  pub imports_key : Value → Bool
  -- The hash, the signed text, the key and the signature; `none` for an exception.
  pub verify : String → String → Value → String → Option Bool

pub record TokenOptions : Type 0 where
  pub keys : List Value
  pub issuer : String
  pub audience : String
  pub allowed_algorithms : List String
  pub now : ℕ
  pub clock_tolerance_seconds : ℕ

-- `if (b) throw new AuthError(code, message)`
unfoldable pub refuse_if : Bool → String → String → Result (Unit {0})
refuse_if b error message = if b then throw_code message error else ok tt

-- A character before the first part.
abbrev pub extend_first : String → List String → List String
extend_first c [] = c ∷ []
extend_first c (s ∷ ss) = (c ⧺ s) ∷ ss

-- `text.split(".")`
unfoldable pub split_dots : String → List String
split_dots String.[] = "" ∷ []
split_dots (String.◌∷◌ c s) =
    let rest = split_dots s in
    if code c == 46 then "" ∷ rest else extend_first (String.◌∷◌ c "") rest

abbrev pub is_object : Value → Bool
is_object (obj fs) = true
is_object _ = false

unfoldable pub decode_segment : Platform → String → String → Result Value
decode_segment p segment label = elim (p.decode_json segment) [
  | none ↦ throw_code ("Could not decode JWT " ⧺ label ⧺ ".") "malformed_token"
  | some v ↦
      if is_object v
      then ok v
      else throw_code ("JWT " ⧺ label ⧺ " must be a JSON object.") "malformed_token"
]

-- `ALG_TO_HASH[alg]`, empty for another algorithm.
unfoldable pub hash_of : Value → String
hash_of (str s) =
    if s === "RS256"
    then "RSA-SHA256"
    else if s === "RS384"
    then "RSA-SHA384"
    else if s === "RS512"
    then "RSA-SHA512"
    else ""
hash_of _ = ""

abbrev has_text : Values → String → Bool
has_text nil t = false
has_text (cons v vs) t = is_text v t || has_text vs t

-- `asAudienceSet(aud).has(audience)`, for an audience that is not empty.
unfoldable pub audience_has : Value → String → Bool
audience_has (arr vs) audience = has_text vs audience
audience_has v audience = is_text v audience

abbrev same_value_text : Value → Value → Bool
same_value_text (str s) v = is_text v s
same_value_text _ v = false

abbrev pub has_kid : Value → Value → Bool
has_kid kid key = is_object key && same_value_text kid (member key "kid")

-- `Array.isArray(ops) && !ops.includes("verify")`
abbrev bars_verify : Value → Bool
bars_verify (arr vs) = not (has_text vs "verify")
bars_verify _ = false

abbrev pub blank_kid : Value → Bool
blank_kid (str s) = is_blank s
blank_kid _ = true

-- The only key with the id.
unfoldable pub matching_key : List Value → Value → Result Value
matching_key [] kid = throw_code ("No JWKS key matches kid: " ⧺ shown kid ⧺ ".") "unknown_key"
matching_key (k ∷ []) kid = ok k
matching_key (k ∷ l ∷ ks) kid =
    throw_code ("Multiple JWKS keys match kid: " ⧺ shown kid ⧺ ".") "ambiguous_key"

unfoldable pub check_key : Value → Value → Result (Unit {0})
check_key key header_alg = do
  refuse_if
      (not (is_text (member key "kty") "RSA")
        || (truthy (member key "use") && not (is_text (member key "use") "sig")))
      "invalid_key" "JWKS key is not an RSA signing key."
  refuse_if (truthy (member key "alg") && not (same_value_text header_alg (member key "alg")))
      "key_alg_mismatch" "JWT algorithm does not match the JWKS key algorithm."
  refuse_if (bars_verify (member key "key_ops")) "invalid_key"
      "JWKS key is not authorized for signature verification."

unfoldable pub check_signature : Option Bool → Result (Unit {0})
check_signature none = throw_code "JWKS key could not verify this signature." "invalid_key"
check_signature (some false) = throw_code "JWT signature verification failed." "bad_signature"
check_signature (some true) = ok tt

abbrev pub list_has : List String → Value → Bool
list_has ts (str s) = includes ts s
list_has ts _ = false

-- The key that the header names, when it is fit for the signature.
unfoldable pub signing_key : Platform → TokenOptions → Value → Result Value
signing_key p o header = do
  refuse_if (hash_of (member header "alg") === "") "unsupported_alg"
      ("Unsupported or missing JWT alg: " ⧺ shown (member header "alg") ⧺ ".")
  refuse_if (not (list_has o.allowed_algorithms (member header "alg"))) "disallowed_alg"
      ("JWT alg is not allowed for this issuer: " ⧺ shown (member header "alg") ⧺ ".")
  refuse_if (blank_kid (member header "kid")) "missing_key_id"
      "JWT header is missing a key id (kid)."
  key ← matching_key (keep (has_kid (member header "kid")) o.keys) (member header "kid")
  check_key key (member header "alg")
  refuse_if (not (p.imports_key key)) "invalid_key" "JWKS key could not be imported."
  ok key

unfoldable pub check_expiration : Value → ℕ → ℕ → Result (Unit {0})
check_expiration (num exp) now_seconds tolerance =
    refuse_if (leb (exp + tolerance) now_seconds) "token_expired" "Token has expired."
check_expiration _ now_seconds tolerance =
    throw_code "Token requires a numeric expiration claim (exp)." "invalid_expiration"

unfoldable pub check_not_before : Value → ℕ → ℕ → Result (Unit {0})
check_not_before undefined now_seconds tolerance = ok tt
check_not_before (num nbf) now_seconds tolerance =
    refuse_if (ltb (now_seconds + tolerance) nbf) "token_not_yet_valid" "Token is not yet valid."
check_not_before _ now_seconds tolerance =
    throw_code "Token not-before claim (nbf) must be numeric." "invalid_not_before"

unfoldable pub check_claims : TokenOptions → Value → Result (Unit {0})
check_claims o payload = do
  refuse_if (not (is_text (member payload "iss") o.issuer)) "issuer_mismatch"
      ("Unexpected token issuer: " ⧺ shown (member payload "iss") ⧺ ".")
  refuse_if (not (audience_has (member payload "aud") o.audience)) "audience_mismatch"
      "Token audience does not include this service."
  check_expiration (member payload "exp") (o.now / 1000) o.clock_tolerance_seconds
  check_not_before (member payload "nbf") (o.now / 1000) o.clock_tolerance_seconds

abbrev pub is_empty {ℓ} : {A : Type ℓ} → List A → Bool
is_empty [] = true
is_empty (x ∷ xs) = false

unfoldable pub verify_segments : Platform → TokenOptions → String → String → String → Result Value
verify_segments p o header_part payload_part signature_part = do
  refuse_if ((o.issuer === "") || (o.audience === "")) "verification_config"
      "JWT verification requires an issuer and audience."
  refuse_if (is_empty o.allowed_algorithms) "verification_config"
      "JWT verification requires at least one allowed algorithm."
  header ← decode_segment p header_part "header"
  payload ← decode_segment p payload_part "payload"
  key ← signing_key p o header
  check_signature (
      p.verify (hash_of (member header "alg")) (header_part ⧺ "." ⧺ payload_part) key
        signature_part)
  check_claims o payload
  ok payload

abbrev pub three_segments : (String → String → String → Result Value) → List String → Result Value
three_segments f (h ∷ p ∷ s ∷ []) = f h p s
three_segments f _ = throw_code "Expected a compact JWS with three segments." "malformed_token"

-- A token that is no text is refused by the caller's type.
unfoldable pub verify_jwt : Platform → TokenOptions → String → Result Value
unfolding verify_segments split_dots
verify_jwt p o token = three_segments (verify_segments p o) (split_dots token)
