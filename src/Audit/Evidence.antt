-- ===== src/Audit/Evidence.antt =====
-- What the verification of an audit chain shows.
use xygo_aec.Base.{
  String, true, List, [], ◌∷◌, Option, none, some, ok, ===_refl, Value, null, str, ◌or_else◌, ◌≡◌,
  ◌≢◌, refl, ap, subst, arith, eq_iff, undefined, bind_inversion, throw_if-bind, ok-injective,
  not-eq_false, ◌∙◌,
}
use xygo_aec.Audit.{
  sign, Crypto, Ambient, AuditInput, AuditEvent, base_event, hashed_content, usable_key, seal,
  create_audit_event, is_identified,
}
use xygo_aec.Audit.Chain.{
  input_of, valid, check_signature, check_event, verify_from, verify_audit_chain, Append, linked,
  append_all,
}
use xygo_aec.Audit.Json.{stable_serialize}

or_else_twice : (v : Value) (s t : String) → ((v or_else str s) or_else str t) ≡ (v or_else str s)
or_else_twice undefined s t = refl
or_else_twice _ s t = refl

or_else-null_twice : (v : Value) → ((v or_else null) or_else null) ≡ (v or_else null)
or_else-null_twice undefined = refl
or_else-null_twice _ = refl

-- The content of an event, created again from its own fields, is the content that was hashed.
base_event-input_of :
    (a b : Ambient) (key : Option String) (previous : Value) (input : AuditInput)
    → base_event b (input_of (base_event a (linked key previous input)) previous key)
      ≡ base_event a (linked key previous input)
unfolding base_event input_of linked
base_event-input_of a b key previous input = rw (
  or_else_twice input.event_id a.event_uuid b.event_uuid,
  or_else_twice input.actor_type "system" "system",
  or_else_twice input.actor_id "unknown" "unknown",
  or_else-null_twice input.before_state_ref,
  or_else-null_twice input.after_state_ref,
  or_else_twice input.correlation_id a.correlation_uuid b.correlation_uuid,
  or_else_twice input.request_id a.request_uuid b.request_uuid,
  or_else_twice input.timestamp a.now b.now,
)

input_of-seal :
    (c : Crypto) (key k : Option String) (e : AuditEvent) (previous : Value)
    → input_of (seal c k e) previous key ≡ input_of e previous key
unfolding seal input_of
input_of-seal c key k e previous = refl

create_linked :
    (c : Crypto) (a : Ambient) (key : Option String) (previous : Value) (input : AuditInput)
    (e : AuditEvent)
    → create_audit_event c a (linked key previous input) ≡ ok e
    → (is_identified input ≡ true) × (seal c key (base_event a (linked key previous input)) ≡ e)
unfolding create_audit_event linked
create_linked c a key previous input e h =
    let (identified, k) = throw_if-bind _ _ _ h in (not-eq_false _ identified, ok-injective k)

create_identified :
    (c : Crypto) (b : Ambient) (i : AuditInput)
    → is_identified i ≡ true
    → create_audit_event c b i ≡ ok (seal c i.signing_key (base_event b i))
unfolding create_audit_event
create_identified c b i h = rw h

is_identified-input_of :
    (a : Ambient) (key : Option String) (previous : Value) (input : AuditInput)
    → is_identified (input_of (base_event a (linked key previous input)) previous key)
      ≡ is_identified input
unfolding base_event input_of linked
is_identified-input_of a key previous input = refl

signing_key-input_of :
    (e : AuditEvent) (key : Option String) (previous : Value)
    → (input_of e previous key).signing_key ≡ key
unfolding input_of
signing_key-input_of e key previous = refl

-- Recalculating an event of the chain gives the event.
recreate :
    (c : Crypto) (a b : Ambient) (key : Option String) (previous : Value) (input : AuditInput)
    (e : AuditEvent)
    → create_audit_event c a (linked key previous input) ≡ ok e
    → create_audit_event c b (input_of e previous key) ≡ ok e
recreate c a b key previous input e h =
    let (identified, made) = create_linked c a key previous input e h in
    let base : AuditEvent = base_event a (linked key previous input) in
    rw (← made) (
      rw (input_of-seal c key key base previous) (
        create_identified c b (input_of base previous key)
          (is_identified-input_of a key previous input ∙ identified)
        ∙ ap ok (
            ap (λ k. seal c k (base_event b (input_of base previous key)))
              (signing_key-input_of base key previous)
            ∙ ap (seal c key) (base_event-input_of a b key previous input))))

usable_text : (s : String) → s ≢ "" → usable_key (some s) ≡ some s
unfolding usable_key
usable_text s h = ground (arith, eq_iff s "", h)

-- An event is checked against itself without complaint: the digest of a key is never empty.
check_signature_self :
    (c : Crypto) (key : Option String) (e : AuditEvent) (hash : String)
    → ((k m : String) → c.hmac_sha256 k m ≢ "")
    → e.signature ≡ sign c key hash
    → check_signature key e e ≡ valid
unfolding check_signature
check_signature_self c none e hash digest made = refl
check_signature_self c (some k) e hash digest made =
    rw (made, usable_text (c.hmac_sha256 k hash) (digest k hash), ===_refl)

check_event_self :
    (c : Crypto) (key : Option String) (base : AuditEvent)
    → ((k m : String) → c.hmac_sha256 k m ≢ "")
    → check_event key (seal c key base) (seal c key base) ≡ valid
unfolding check_event seal
check_event_self c key base digest = rw ===_refl (
    check_signature_self c (usable_key key) _ (c.sha256 (stable_serialize (hashed_content base)))
      digest refl)

verify_from-cons :
    (c : Crypto) (b : Ambient) (key : Option String) (previous : Value) (e : AuditEvent)
    (es : List AuditEvent)
    → create_audit_event c b (input_of e previous key) ≡ ok e
    → check_event key e e ≡ valid
    → verify_from c b key previous (e ∷ es) ≡ verify_from c b key (str e.event_hash) es
unfolding verify_from
verify_from-cons c b key previous e es made checked = rw (made, checked)

appended_checks :
    (c : Crypto) (a : Ambient) (key : Option String) (previous : Value) (input : AuditInput)
    (e : AuditEvent)
    → ((k m : String) → c.hmac_sha256 k m ≢ "")
    → create_audit_event c a (linked key previous input) ≡ ok e
    → check_event key e e ≡ valid
appended_checks c a key previous input e digest h =
    let (identified, made) = create_linked c a key previous input e h in
    subst (λ x. check_event key x x ≡ valid) made
      (check_event_self c key (base_event a (linked key previous input)) digest)

verify_from-append_all :
    (c : Crypto) (b : Ambient) (key : Option String) (previous : Value) (ps : List Append)
    (es : List AuditEvent)
    → ((k m : String) → c.hmac_sha256 k m ≢ "")
    → append_all c key previous ps ≡ ok es
    → verify_from c b key previous es ≡ ok valid
unfolding append_all
verify_from-append_all c b key previous [] es digest h =
    subst (λ l. verify_from c b key previous l ≡ ok valid) (ok-injective h)
      (unfold verify_from in refl)
verify_from-append_all c b key previous (p ∷ ps) es digest h =
    let (e, made, h1) =
      bind_inversion (create_audit_event c p.ambient (linked key previous p.input)) _ h in
    let (rest, more, h2) = bind_inversion (append_all c key (str e.event_hash) ps) _ h1 in
    subst (λ l. verify_from c b key previous l ≡ ok valid) (ok-injective h2)
      (verify_from-cons c b key previous e rest (recreate c p.ambient b key previous p.input e made)
          (appended_checks c p.ambient key previous p.input e digest made)
        ∙ verify_from-append_all c b key (str e.event_hash) ps rest digest more)

-- A chain that was built by appending events, each linked to the one before, is verified as valid
-- with the key that it was signed with, if the digest of a key is never the empty text.
pub verify_audit_chain-append_all :
    (c : Crypto) (b : Ambient) (key : Option String) (ps : List Append) (es : List AuditEvent)
    → ((k m : String) → c.hmac_sha256 k m ≢ "")
    → append_all c key null ps ≡ ok es
    → verify_audit_chain c b key es ≡ ok valid
unfolding verify_audit_chain
verify_audit_chain-append_all c b key ps es = verify_from-append_all c b key null ps es
