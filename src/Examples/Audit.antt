-- ===== src/Examples/Audit.antt =====
-- Chains of audit events at concrete appends.
use xygo_aec.Base.{
  String, List, [], ◌∷◌, map, Option, none, some, Result, ok, ◌≡◌, ◌≢◌, refl, arith, eq_iff, Value,
  null, num, str, bool,
}
use xygo_aec.Audit.{Crypto, AuditEvent, create_audit_event, seal, base_event, usable_key}
use xygo_aec.Audit.Chain.{Append, append_all, verify_audit_chain, valid}
use xygo_aec.Audit.Evidence.{verify_audit_chain-append_all}
use xygo_aec.Audit.Tampering.{verify_audit_chain-relabel, relabel}
use xygo_aec.Emission.{user_event}
use xygo_aec.Examples.Data.{crypto, ambient}

abbrev appends : List Append
unfolding user_event
appends =
    record { ambient = ambient; input = user_event "tenant-a" "ana" "a.created" "project" "p1" }
    ∷ record { ambient = ambient; input = user_event "tenant-a" "bo" "a.updated" "project" "p1" }
    ∷ []

abbrev events_of : Result (List AuditEvent) → List AuditEvent
events_of (ok es) = es
events_of (xygo_aec.Base.err e) = []

abbrev chain : List AuditEvent
unfolding append_all create_audit_event seal base_event usable_key
chain = events_of (append_all crypto (some "k") null appends)

digest_of_key : (k m : String) → crypto.hmac_sha256 k m ≢ ""
digest_of_key k m = ground (arith, eq_iff "signature" "")

append_all-chain : append_all crypto (some "k") null appends ≡ ok chain
unfolding append_all create_audit_event seal base_event usable_key user_event
append_all-chain = refl

verify_audit_chain-append_all_example :
    verify_audit_chain crypto ambient (some "k") chain ≡ ok valid
verify_audit_chain-append_all_example =
    verify_audit_chain-append_all crypto ambient (some "k") appends chain digest_of_key
      append_all-chain

-- A digest without collisions, and a chain that was verified with it, and what may be changed in it.
abbrev plain : Crypto
plain = record { sha256 = λ t. t; hmac_sha256 = λ k m. "signature" }

abbrev plain_chain : List AuditEvent
unfolding append_all create_audit_event seal base_event usable_key
plain_chain = events_of (append_all plain none null appends)

abbrev relabelled : List AuditEvent
relabelled = map (relabel (str "forged") (num 9) (bool xygo_aec.Base.false)) plain_chain

verify_audit_chain-relabel_example :
    verify_audit_chain crypto ambient
      (some "k")
      (map (relabel (str "forged") (num 9) (bool xygo_aec.Base.false)) chain)
    ≡ verify_audit_chain crypto ambient (some "k") chain
verify_audit_chain-relabel_example =
    verify_audit_chain-relabel crypto ambient (some "k") (str "forged") (num 9)
      (bool xygo_aec.Base.false) chain
