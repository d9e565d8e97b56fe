-- ===== src/Api/Collections.antt =====
-- `handleCollectionCreate` of apps/api/src/handlers.js, with `ensureObjectBody`, `buildTenantAuditEvent`
-- and `appendTenantAuditEvent`. As there, the resource is an argument: what it validates, guards, builds
-- and creates in its rows of the repository.
pub mod Writing
pub mod Table
pub mod Tenants
pub mod Listing
pub mod Adding
pub mod Isolation
pub mod Effects
use xygo_aec.Base.{
  ℕ, String, Bool, true, false, List, [], ◌∷◌, ◌++◌, keep, Option, none, some, Failure, Result, ok,
  err, ◌⧺◌, if◌then◌else◌, Value, null, undefined, str, obj, is_text, ◌≡◌, refl, sym, ap, ◌∙◌,
  subst, ok-injective,
}
use xygo_aec.Audit.{
  Crypto, Ambient, AuditInput, AuditEvent, create_audit_event, OutboxEvent, create_outbox_event,
}
use xygo_aec.Audit.Links.{last_hash}
use xygo_aec.Emission.{
  transition_event, aggregate_event, user_event, create_audit_event-fields,
  aggregate_event-announced, Records, Announces,
}
use xygo_aec.Outbox.Jobs.{Job}
use xygo_aec.Outbox.Store.{Store}
use xygo_aec.Outbox.Processing.{enqueue_outbox_event}

pub record Created (Item : Type 0) : Type 0 where
  pub id : String
  pub item : Item

pub record Resource (Rows Item : Type 0) : Type 0 where
  pub list : Rows → String → List Item
  pub validate : Value → Option String
  pub guard : Value → String → Rows → Option String
  pub build : Value → String → Value
  pub create : Rows → Value → Result (Rows × Created Item)
  pub action : String
  pub resource_type : String
  pub after_state_ref : Created Item → Value

-- The repository and the outbox.
pub record World (Rows : Type 0) : Type 0 where
  pub rows : Rows
  pub audit_events : List AuditEvent
  pub outbox : Store

pub record Request : Type 0 where
  pub parsed : Value
  pub tenant_id : String
  pub actor_id : Option String
  pub signing_key : Option String
  pub now : ℕ

pub data Response (Item : Type 0) : Type 0 where
  created : Created Item → Response Item
  bad_request : String → Response Item
  forbidden : String → Response Item

abbrev pub ensure_object_body : Value → Option String
ensure_object_body null = none
ensure_object_body (obj fs) = none
ensure_object_body _ = some "Request body must be a JSON object."

-- The hash of the last event of the tenant, or null.
abbrev pub previous_hash : String → List AuditEvent → Value
previous_hash tenant_id events = last_hash null (keep (λ e. is_text e.tenant_id tenant_id) events)

abbrev pub actor : Request → String
actor q = elim q.actor_id [ none ↦ "synthetic-user" | some a ↦ a ]

module _ {Rows Item : Type 0} where
  abbrev pub audit_input :
      Resource Rows Item → Request → List AuditEvent → Created Item → AuditInput
  audit_input r q events c =
      record (transition_event q.tenant_id (actor q) r.action r.resource_type c.id null
        (r.after_state_ref c) undefined) {
          previous_hash = previous_hash q.tenant_id events;
          signing_key = q.signing_key;
        }

  after_enqueue :
      World Rows → Created Item → Result (Store × Job) → World Rows × Result (Created Item)
  after_enqueue w c (err e) = (w, err e)
  after_enqueue w c (ok (s, j)) = (record w { outbox = s }, ok c)

  abbrev pub outbox_key : Resource Rows Item → Request → Created Item → String
  outbox_key r q c = q.tenant_id ⧺ ":" ⧺ r.action ⧺ ":" ⧺ c.id

  after_outbox_event :
      Resource Rows Item
      → Request
      → World Rows
      → Created Item
      → Result OutboxEvent
      → World Rows × Result (Created Item)
  unfolding after_enqueue
  after_outbox_event r q w c (err e) = (w, err e)
  after_outbox_event r q w c (ok o) =
      after_enqueue w c (enqueue_outbox_event w.outbox o (some (outbox_key r q c)) q.now)

  after_audit_event :
      Ambient
      → Resource Rows Item
      → Request
      → World Rows
      → Created Item
      → Result AuditEvent
      → World Rows × Result (Created Item)
  unfolding after_outbox_event
  after_audit_event a r q w c (err e) = (w, err e)
  after_audit_event a r q w c (ok e) =
      after_outbox_event r q (record w { audit_events = w.audit_events ++ e ∷ [] }) c
        (create_outbox_event a
          (aggregate_event r.action r.resource_type c.id q.tenant_id undefined))

  after_create :
      Crypto
      → Ambient
      → Resource Rows Item
      → Request
      → World Rows
      → Result (Rows × Created Item)
      → World Rows × Result (Created Item)
  unfolding after_audit_event
  after_create k a r q w (err e) = (w, err e)
  after_create k a r q w (ok (rows, c)) =
      after_audit_event a r q (record w { rows = rows }) c
        (create_audit_event k a (audit_input r q w.audit_events c))

  -- `persist`: what was written before an exception stays.
  unfoldable pub persist :
      Crypto
      → Ambient
      → Resource Rows Item
      → Request
      → World Rows
      → World Rows × Result (Created Item)
  unfolding after_create
  persist k a r q w = after_create k a r q w (r.create w.rows (r.build q.parsed q.tenant_id))

  -- The response, where a transaction takes back what an exception left.
  abbrev respond :
      Bool → World Rows → World Rows × Result (Created Item) → World Rows × Response Item
  respond transactional w (w', ok c) = (w', created c)
  respond transactional w (w', err e) = (if transactional then w else w', bad_request e.message)

  after_guard :
      Crypto
      → Ambient
      → Bool
      → Resource Rows Item
      → Request
      → World Rows
      → Option String
      → World Rows × Response Item
  after_guard k a transactional r q w (some message) = (w, forbidden message)
  after_guard k a transactional r q w none = respond transactional w (persist k a r q w)

  after_validation :
      Crypto
      → Ambient
      → Bool
      → Resource Rows Item
      → Request
      → World Rows
      → Option String
      → World Rows × Response Item
  unfolding after_guard
  after_validation k a transactional r q w (some message) = (w, bad_request message)
  after_validation k a transactional r q w none =
      after_guard k a transactional r q w (r.guard q.parsed q.tenant_id w.rows)

  after_shape :
      Crypto
      → Ambient
      → Bool
      → Resource Rows Item
      → Request
      → World Rows
      → Option String
      → World Rows × Response Item
  unfolding after_validation
  after_shape k a transactional r q w (some message) = (w, bad_request message)
  after_shape k a transactional r q w none =
      after_validation k a transactional r q w (r.validate q.parsed)

  unfoldable pub handle_collection_create :
      Crypto
      → Ambient
      → Bool
      → Resource Rows Item
      → Request
      → World Rows
      → World Rows × Response Item
  unfolding after_shape
  handle_collection_create k a transactional r q w =
      after_shape k a transactional r q w (ensure_object_body q.parsed)
