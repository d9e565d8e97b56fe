-- ===== src/Examples/Data.antt =====
-- Concrete values that the examples share.
use xygo_aec.Base.{String, true, List, [], ◌∷◌, Fields, bool, str, field, end}
use xygo_aec.Access.{Session}
use xygo_aec.Audit.{Crypto, Ambient}

abbrev pub crypto : Crypto
crypto = record { sha256 = λ s. "digest"; hmac_sha256 = λ k s. "signature" }

abbrev pub ambient : Ambient
ambient = record {
  event_uuid = "uuid-1";
  correlation_uuid = "uuid-2";
  request_uuid = "uuid-3";
  outbox_uuid = "uuid-4";
  now = "2026-01-01T00:00:00.000Z";
}

abbrev pub session : Session
session = record {
  session_id = "s1";
  tenant_id = "tenant-a";
  user_id = "ana";
  organization_role = "company_admin";
  project_roles = [];
  allowed_project_ids = "p1" ∷ [];
  staged = true;
}

-- An object of texts.
abbrev pub text_object : List (String × String) → Fields
text_object [] = field "staged" (bool true) end
text_object ((k, v) ∷ rest) = field k (str v) (text_object rest)
