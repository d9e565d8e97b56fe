-- ===== src/Examples/Tokens.antt =====
-- A token with one key.
use xygo_aec.Base.{
  true, [], ◌∷◌, none, some, ok, ◌&&◌, ◌===◌, is_blank, if◌then◌else◌, ◌≡◌, refl, Value, num, str,
  obj, field, end,
}
use xygo_aec.Tokens.{
  Platform, TokenOptions, refuse_if, split_dots, decode_segment, hash_of, audience_has,
  matching_key, check_key, check_signature, signing_key, check_expiration, check_not_before,
  check_claims, verify_segments, verify_jwt,
}
use xygo_aec.Tokens.Soundness.{Verified, verify_jwt_sound}

abbrev header : Value
header = obj (field "alg" (str "RS256") (field "kid" (str "k1") end))

abbrev claims : Value
claims = obj (field "iss" (str "issuer") (field "aud" (str "api") (field "exp" (num 100) end)))

-- A platform that knows two segments and one signature.
abbrev platform : Platform
platform = record {
  decode_json = λ s. if s === "h" then some header else if s === "p" then some claims else none;
  imports_key = λ k. true;
  verify = λ hash text key signature. some ((text === "h.p") && (signature === "s"));
}

abbrev options : TokenOptions
options = record {
  keys =
      obj (field "kid" (str "k1") (field "kty" (str "RSA") end))
      ∷ obj (field "kid" (str "k2") (field "kty" (str "RSA") end))
      ∷ [];
  issuer = "issuer";
  audience = "api";
  allowed_algorithms = "RS256" ∷ [];
  now = 50000;
  clock_tolerance_seconds = 60;
}

accepted : verify_jwt platform options "h.p.s" ≡ ok claims
unfolding verify_jwt split_dots verify_segments refuse_if decode_segment signing_key hash_of
    matching_key check_key check_signature check_claims audience_has check_expiration
    check_not_before is_blank
accepted = refl

verify_jwt_sound_example : Verified platform options "h.p.s" claims
verify_jwt_sound_example = verify_jwt_sound platform options "h.p.s" claims accepted
