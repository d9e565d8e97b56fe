-- ===== src/Audit/Chain.antt =====
-- `verifyAuditChain` and `buildAuditVerificationReport` of packages/audit/src/foundation.js, and the
-- way in which apps/api/src/handlers.js (buildTenantAuditEvent) links each event to the last one.
use xygo_aec.Base.{
  ℕ, String, Bool, true, false, not, List, [], ◌∷◌, Option, none, some, Result, ok, ◌>>=◌, ◌===◌,
  length, Value, null, str, if◌then◌else◌,
}
use xygo_aec.Audit.{Crypto, Ambient, AuditInput, AuditEvent, usable_key, create_audit_event}

-- `{ ...event, previousHash, signingKey }`
unfoldable pub input_of : AuditEvent → Value → Option String → AuditInput
input_of e previous key = record {
  event_id = e.event_id;
  tenant_id = e.tenant_id;
  actor_type = e.actor_type;
  actor_id = e.actor_id;
  action = e.action;
  resource_type = e.resource_type;
  resource_id = e.resource_id;
  before_state_ref = e.before_state_ref;
  after_state_ref = e.after_state_ref;
  correlation_id = e.correlation_id;
  request_id = e.request_id;
  timestamp = e.timestamp;
  previous_hash = previous;
  signing_key = key;
}

pub data Verdict : Type 0 where
  valid : Verdict
  invalid : String → Value → Verdict

-- The event's signature, if it has one, against the recalculated one.
unfoldable pub compare_signature : Option String → Option String → Value → Verdict
compare_signature none recalculated event_id = invalid "signature_missing" event_id
compare_signature (some given) none event_id = invalid "signature_mismatch" event_id
compare_signature (some given) (some s) event_id =
    if s === given then valid else invalid "signature_mismatch" event_id

-- Signatures are compared only where a key is given.
unfoldable pub check_signature : Option String → AuditEvent → AuditEvent → Verdict
unfolding compare_signature
check_signature none recalculated e = valid
check_signature (some k) recalculated e =
    compare_signature (usable_key e.signature) recalculated.signature e.event_id

unfoldable pub check_event : Option String → AuditEvent → AuditEvent → Verdict
check_event key recalculated e =
    if not (recalculated.event_hash === e.event_hash)
    then invalid "hash_mismatch" e.event_id
    else check_signature (usable_key key) recalculated e

abbrev pub go_on : Verdict → Result Verdict → Result Verdict
go_on valid rest = rest
go_on (invalid r i) rest = ok (invalid r i)

-- The loop, with the hash of the event before.
unfoldable pub verify_from :
    Crypto → Ambient → Option String → Value → List AuditEvent → Result Verdict
verify_from c a key previous [] = ok valid
verify_from c a key previous (e ∷ es) =
    let rest = verify_from c a key (str e.event_hash) es in
    create_audit_event c a (input_of e previous key) >>= λ recalculated.
    go_on (check_event key recalculated e) rest

unfoldable pub verify_audit_chain :
    Crypto → Ambient → Option String → List AuditEvent → Result Verdict
unfolding verify_from
verify_audit_chain c a key es = verify_from c a key null es

pub record VerificationReport : Type 0 where
  pub valid : Bool
  pub reason : Value
  pub event_id : Value
  pub checked_event_count : ℕ
  pub signed : Bool
  pub staged : Bool

abbrev is_some {ℓ} : {A : Type ℓ} → Option A → Bool
is_some none = false
is_some (some a) = true

abbrev report_of : Verdict → ℕ → Bool → VerificationReport
report_of Verdict.valid n signed = record {
  valid = true;
  reason = null;
  event_id = null;
  checked_event_count = n;
  signed = signed;
  staged = true;
}
report_of (invalid r i) n signed = record {
  valid = false;
  reason = str r;
  event_id = i;
  checked_event_count = n;
  signed = signed;
  staged = true;
}

unfoldable pub build_audit_verification_report :
    Crypto → Ambient → Option String → List AuditEvent → Result VerificationReport
build_audit_verification_report c a key es = do
  verdict ← verify_audit_chain c a key es
  ok (report_of verdict (length es) (is_some (usable_key key)))

-- An append to a chain: what the caller gives, and what the host gives during the call.
pub record Append : Type 0 where
  pub ambient : Ambient
  pub input : AuditInput

-- Each event takes the hash of the last one, and the tenant's signing key.
unfoldable pub linked : Option String → Value → AuditInput → AuditInput
linked key previous input = record input { previous_hash = previous; signing_key = key }

-- The events that a series of appends leaves in the store.
unfoldable pub append_all : Crypto → Option String → Value → List Append → Result (List AuditEvent)
unfolding linked
append_all c key previous [] = ok []
append_all c key previous (p ∷ ps) = do
  e ← create_audit_event c p.ambient (linked key previous p.input)
  es ← append_all c key (str e.event_hash) ps
  ok (e ∷ es)
