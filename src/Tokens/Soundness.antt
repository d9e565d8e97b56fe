-- ===== src/Tokens/Soundness.antt =====
-- What a token that `verifyJwt` of apps/api/src/auth/jwt.js accepts has been checked for.
use xygo_aec.Base.{
  ℕ, ◌+◌, ◌/◌, ◌<◌, String, Bool, true, false, not, ◌||◌, List, [], ◌∷◌, keep, Option, none, some,
  Result, ok, ◌>>◌, ◌⧺◌, ◌===◌, Value, num, str, member, is_text, is_text_sound, ◌≡◌, refl, ap,
  subst, arith, bind_inversion, ok-injective, not-eq_false,
}
use xygo_aec.Tokens.{
  Platform, TokenOptions, refuse_if, split_dots, decode_segment, is_object, hash_of, audience_has,
  has_kid, matching_key, check_key, check_signature, list_has, blank_kid, signing_key,
  check_expiration, check_not_before, check_claims, is_empty, verify_segments, three_segments,
  verify_jwt,
}

refuse_if-bind {ℓ} :
    {B : Type ℓ} (b : Bool) (error message : String) (k : Result B) {x : B}
    → (refuse_if b error message >> k) ≡ ok x
    → (b ≡ false) × (k ≡ ok x)
unfolding refuse_if
refuse_if-bind true error message k h = cc
refuse_if-bind false error message k h = (refl, h)

refuse_if-ok : (b : Bool) (error message : String) → refuse_if b error message ≡ ok tt → b ≡ false
unfolding refuse_if
refuse_if-ok true error message h = cc
refuse_if-ok false error message h = refl

decode_segment_sound :
    (p : Platform) (segment label : String) (v : Value)
    → decode_segment p segment label ≡ ok v
    → (p.decode_json segment ≡ some v) × (is_object v ≡ true)
unfolding decode_segment
decode_segment_sound p segment label v h = ground arith

matching_key_sound :
    (keys : List Value) (kid key : Value) → matching_key keys kid ≡ ok key → keys ≡ key ∷ []
unfolding matching_key
matching_key_sound [] kid key h = cc
matching_key_sound (k ∷ []) kid key h = ap (λ x. x ∷ []) (ok-injective h)
matching_key_sound (k ∷ l ∷ ks) kid key h = cc

check_signature_sound : (r : Option Bool) → check_signature r ≡ ok tt → r ≡ some true
unfolding check_signature
check_signature_sound none h = cc
check_signature_sound (some false) h = cc
check_signature_sound (some true) h = refl

signing_key_sound :
    (p : Platform) (o : TokenOptions) (header key : Value)
    → signing_key p o header ≡ ok key
    → (list_has o.allowed_algorithms (member header "alg") ≡ true)
      × (keep (has_kid (member header "kid")) o.keys ≡ key ∷ [])
unfolding signing_key
signing_key_sound p o header key h =
    let (supported, h1) = refuse_if-bind (hash_of (member header "alg") === "") _ _ _ h in
    let (allowed, h2) =
      refuse_if-bind (not (list_has o.allowed_algorithms (member header "alg"))) _ _ _ h1 in
    let (named, h3) = refuse_if-bind (blank_kid (member header "kid")) _ _ _ h2 in
    let (k, found, h4) =
      bind_inversion
        (matching_key (keep (has_kid (member header "kid")) o.keys) (member header "kid")) _ h3 in
    let (u, fit, h5) = bind_inversion (check_key k (member header "alg")) _ h4 in
    let (imported, h6) = refuse_if-bind (not (p.imports_key k)) _ _ _ h5 in
    (
      not-eq_false _ allowed,
      subst (λ x. keep (has_kid (member header "kid")) o.keys ≡ x ∷ []) (ok-injective h6)
          (matching_key_sound _ (member header "kid") k found),
    )

-- The token has not expired.
abbrev pub IsAlive : TokenOptions → Value → Type 0
IsAlive o payload =
    (exp : ℕ) × (member payload "exp" ≡ num exp) × (o.now / 1000 < exp + o.clock_tolerance_seconds)

check_expiration_sound :
    (v : Value) (now tolerance : ℕ)
    → check_expiration v now tolerance ≡ ok tt
    → (exp : ℕ) × (v ≡ num exp) × (now < exp + tolerance)
unfolding check_expiration refuse_if
check_expiration_sound (num exp) now tolerance h = (exp, refl, ground arith)
check_expiration_sound _ now tolerance h = cc

check_claims_sound :
    (o : TokenOptions) (payload : Value)
    → check_claims o payload ≡ ok tt
    → (member payload "iss" ≡ str o.issuer)
      × (audience_has (member payload "aud") o.audience ≡ true)
      × IsAlive o payload
      × (check_not_before (member payload "nbf") (o.now / 1000) o.clock_tolerance_seconds ≡ ok tt)
unfolding check_claims
check_claims_sound o payload h =
    let (issued, h1) = refuse_if-bind (not (is_text (member payload "iss") o.issuer)) _ _ _ h in
    let (meant, h2) =
      refuse_if-bind (not (audience_has (member payload "aud") o.audience)) _ _ _ h1 in
    let (u, alive, h3) =
      bind_inversion
        (check_expiration (member payload "exp") (o.now / 1000) o.clock_tolerance_seconds) _ h2 in
    (
      is_text_sound (member payload "iss") o.issuer (not-eq_false _ issued),
      not-eq_false _ meant,
      check_expiration_sound (member payload "exp") (o.now / 1000) o.clock_tolerance_seconds alive,
      h3,
    )

-- What the verification has seen.
pub record Verified (p : Platform) (o : TokenOptions) (token : String) (payload : Value)
    : Type 0 where
  pub header_part : String
  pub payload_part : String
  pub signature_part : String
  pub segments : split_dots token ≡ header_part ∷ payload_part ∷ signature_part ∷ []
  pub header : Value
  pub key : Value
  pub header_decoded : p.decode_json header_part ≡ some header
  pub payload_decoded : p.decode_json payload_part ≡ some payload
  pub algorithm : list_has o.allowed_algorithms (member header "alg") ≡ true
  pub only_key : keep (has_kid (member header "kid")) o.keys ≡ key ∷ []
  pub signed :
      p.verify (hash_of (member header "alg")) (header_part ⧺ "." ⧺ payload_part) key signature_part
      ≡ some true
  pub issuer : member payload "iss" ≡ str o.issuer
  pub audience : audience_has (member payload "aud") o.audience ≡ true
  pub alive : IsAlive o payload
  pub started :
      check_not_before (member payload "nbf") (o.now / 1000) o.clock_tolerance_seconds ≡ ok tt

verify_segments_sound :
    (p : Platform) (o : TokenOptions) (token h1 p1 s1 : String) (payload : Value)
    → split_dots token ≡ h1 ∷ p1 ∷ s1 ∷ []
    → verify_segments p o h1 p1 s1 ≡ ok payload
    → Verified p o token payload
unfolding verify_segments
verify_segments_sound p o token h1 p1 s1 payload split h =
    let (configured, k1) = refuse_if-bind ((o.issuer === "") || (o.audience === "")) _ _ _ h in
    let (algorithms, k2) = refuse_if-bind (is_empty o.allowed_algorithms) _ _ _ k1 in
    let (header, e1, k3) = bind_inversion (decode_segment p h1 "header") _ k2 in
    let (body, e2, k4) = bind_inversion (decode_segment p p1 "payload") _ k3 in
    let (key, e3, k5) = bind_inversion (signing_key p o header) _ k4 in
    let (u, e4, k6) =
      bind_inversion
        (check_signature (p.verify (hash_of (member header "alg")) (h1 ⧺ "." ⧺ p1) key s1)) _ k5 in
    let (v, e5, k7) = bind_inversion (check_claims o body) _ k6 in
    let (algorithm, only) = signing_key_sound p o header key e3 in
    let (issuer, audience, alive, started) = check_claims_sound o body e5 in
    subst (Verified p o token) (ok-injective k7) (record {
      header_part = h1;
      payload_part = p1;
      signature_part = s1;
      segments = split;
      header = header;
      key = key;
      header_decoded = (decode_segment_sound p h1 "header" header e1).0;
      payload_decoded = (decode_segment_sound p p1 "payload" body e2).0;
      algorithm = algorithm;
      only_key = only;
      signed = check_signature_sound _ e4;
      issuer = issuer;
      audience = audience;
      alive = alive;
      started = started;
    })

three_segments_sound :
    (p : Platform) (o : TokenOptions) (token : String) (parts : List String) (payload : Value)
    → split_dots token ≡ parts
    → three_segments (verify_segments p o) parts ≡ ok payload
    → Verified p o token payload
three_segments_sound p o token (h1 ∷ p1 ∷ s1 ∷ []) payload split h =
    verify_segments_sound p o token h1 p1 s1 payload split h
three_segments_sound p o token [] payload split h = cc
three_segments_sound p o token (a ∷ []) payload split h = cc
three_segments_sound p o token (a ∷ b ∷ []) payload split h = cc
three_segments_sound p o token (a ∷ b ∷ c ∷ d ∷ rest) payload split h = cc

-- A token that is accepted has three segments; its header names an allowed algorithm and a key of which
-- there is exactly one, and with that key and algorithm the signature of the first two segments was
-- verified. The claims that are returned are those of the second segment: of the issuer, for the
-- audience, not expired and not before their start, each up to the tolerance of the clock.
pub verify_jwt_sound :
    (p : Platform) (o : TokenOptions) (token : String) (payload : Value)
    → verify_jwt p o token ≡ ok payload
    → Verified p o token payload
unfolding verify_jwt
verify_jwt_sound p o token payload h =
    three_segments_sound p o token (split_dots token) payload refl h
