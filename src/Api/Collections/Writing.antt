-- ===== src/Api/Collections/Writing.antt =====
-- What a write to a collection leaves behind, by `handleCollectionCreate` of apps/api/src/handlers.js.
use xygo_aec.Base.{
  String, Bool, List, [], ◌∷◌, ◌++◌, Option, none, some, Failure, Result, ok, err, undefined, Value,
  Fields, null, obj, ◌⊎◌, inl, inr, ◌≡◌, refl, ap, subst, ok-injective,
}
use xygo_aec.Audit.{
  Crypto, Ambient, AuditEvent, create_audit_event, OutboxEvent, create_outbox_event,
}
use xygo_aec.Audit.Links.{link_after, create_audit_event-linked}
use xygo_aec.Emission.{
  transition_event, user_event, aggregate_event, create_audit_event-fields,
  aggregate_event-announced, Records, Announces,
}
use xygo_aec.Outbox.Jobs.{Job}
use xygo_aec.Outbox.Store.{Store}
use xygo_aec.Outbox.Processing.{enqueue_outbox_event}
use xygo_aec.Api.Collections.{
  Created, Resource, World, Request, Response, created, bad_request, forbidden, ensure_object_body,
  actor, audit_input, outbox_key, after_enqueue, after_outbox_event, after_audit_event,
  after_create, persist, respond, after_guard, after_validation, after_shape,
  handle_collection_create,
}

err≢ok : {A : Type 0} {e : Failure} {x : A} → (err e ≡ ok x) → ⊥
err≢ok {A} {e} {x} h = cc

created-injective : {Item : Type 0} (c d : Created Item) → Response.created c ≡ created d → c ≡ d
created-injective c d h = cc

refused :
    {Item : Type 0} (message : String) (d : Created Item) → bad_request message ≡ created d → ⊥
refused message d h = cc

forbade : {Item : Type 0} (message : String) (d : Created Item) → forbidden message ≡ created d → ⊥
forbade message d h = cc

-- A body is null or an object.
abbrev pub IsObject : Value → Type 0
IsObject v = (v ≡ null) ⊎ ((fields : Fields) × (v ≡ obj fields))

shaped_lem : (v : Value) → ensure_object_body v ≡ none → IsObject v
shaped_lem null h = inl refl
shaped_lem (obj fields) h = inr (fields, refl)
shaped_lem _ h = cc

-- The world after the audit event.
abbrev audited : {Rows : Type 0} → World Rows → AuditEvent → World Rows
audited w e = record w { audit_events = w.audit_events ++ e ∷ [] }

module _ {Rows Item : Type 0} where
  input-recorded :
      (k : Crypto) (a : Ambient) (r : Resource Rows Item) (q : Request) (events : List AuditEvent)
      (c : Created Item) (e : AuditEvent)
      → create_audit_event k a (audit_input r q events c) ≡ ok e
      → Records e q.tenant_id (actor q) r.action c.id
  unfolding transition_event user_event
  input-recorded k a r q events c e h =
      let (tenant, action, resource, by, before, after) = create_audit_event-fields k a _ e h in
      record { tenant = tenant; actor = by; action_name = action; resource = resource }

  -- What a response with status 201 stands for.
  pub record AllWritten (k : Crypto) (a : Ambient) (r : Resource Rows Item) (q : Request)
      (w w' : World Rows) (c : Created Item) : Type 0 where
    pub shaped : IsObject q.parsed
    pub validated : r.validate q.parsed ≡ none
    pub guarded : r.guard q.parsed q.tenant_id w.rows ≡ none
    pub row : r.create w.rows (r.build q.parsed q.tenant_id) ≡ ok (w'.rows, c)
    pub event : AuditEvent
    pub linked : event.previous_hash ≡ link_after q.tenant_id null w.audit_events
    pub appended : w'.audit_events ≡ w.audit_events ++ event ∷ []
    pub recorded : Records event q.tenant_id (actor q) r.action c.id
    pub outbox_event : OutboxEvent
    pub announced : Announces outbox_event r.action c.id q.tenant_id
    pub job : Job
    pub enqueued :
        enqueue_outbox_event w.outbox outbox_event (some (outbox_key r q c)) q.now
        ≡ ok (w'.outbox, job)

  -- What was written after the row and the audit event.
  record Enqueued (r : Resource Rows Item) (q : Request) (w : World Rows) (c : Created Item)
      (o : OutboxEvent) (w' : World Rows) (d : Created Item) : Type 0 where
    store : Store
    job : Job
    done : enqueue_outbox_event w.outbox o (some (outbox_key r q c)) q.now ≡ ok (store, job)
    world : record w { outbox = store } ≡ w'
    same : c ≡ d

  after_enqueue_sound :
      (r : Resource Rows Item) (q : Request) (w w' : World Rows) (c d : Created Item)
      (o : OutboxEvent) (result : Result (Store × Job))
      → enqueue_outbox_event w.outbox o (some (outbox_key r q c)) q.now ≡ result
      → after_enqueue w c result ≡ (w', ok d)
      → Enqueued r q w c o w' d
  unfolding after_enqueue
  after_enqueue_sound r q w w' c d o (err e) done h = absurd (err≢ok (ap (λ p. p.1) h))
  after_enqueue_sound r q w w' c d o (ok (s, j)) done h = record {
    store = s;
    job = j;
    done = done;
    world = ap (λ p. p.0) h;
    same = ok-injective (ap (λ p. p.1) h);
  }

  after_outbox_event_sound :
      (r : Resource Rows Item) (q : Request) (w w' : World Rows) (c d : Created Item)
      (result : Result OutboxEvent)
      → after_outbox_event r q w c result ≡ (w', ok d)
      → (o : OutboxEvent) × (result ≡ ok o) × Enqueued r q w c o w' d
  unfolding after_outbox_event
  after_outbox_event_sound r q w w' c d (err e) h = absurd (err≢ok (ap (λ p. p.1) h))
  after_outbox_event_sound r q w w' c d (ok o) h =
      (o, refl, after_enqueue_sound r q w w' c d o _ refl h)

  after_audit_event_sound :
      (a : Ambient) (r : Resource Rows Item) (q : Request) (w w' : World Rows) (c d : Created Item)
      (result : Result AuditEvent)
      → after_audit_event a r q w c result ≡ (w', ok d)
      → (e : AuditEvent) × (o : OutboxEvent) × (result ≡ ok e)
        × (create_outbox_event a
              (aggregate_event r.action r.resource_type c.id q.tenant_id undefined)
            ≡ ok o)
        × Enqueued r q (audited w e) c o w' d
  unfolding after_audit_event
  after_audit_event_sound a r q w w' c d (err e) h = absurd (err≢ok (ap (λ p. p.1) h))
  after_audit_event_sound a r q w w' c d (ok e) h =
      let (o, announced, enqueued) = after_outbox_event_sound r q (audited w e) w' c d _ h in
      (e, o, refl, announced, enqueued)

  after_create_sound :
      (k : Crypto) (a : Ambient) (r : Resource Rows Item) (q : Request) (w w' : World Rows)
      (d : Created Item) (result : Result (Rows × Created Item))
      → ensure_object_body q.parsed ≡ none
      → r.validate q.parsed ≡ none
      → r.guard q.parsed q.tenant_id w.rows ≡ none
      → r.create w.rows (r.build q.parsed q.tenant_id) ≡ result
      → after_create k a r q w result ≡ (w', ok d)
      → AllWritten k a r q w w' d
  unfolding after_create
  after_create_sound k a r q w w' d (err e) shaped validated guarded row h =
      absurd (err≢ok (ap (λ p. p.1) h))
  after_create_sound k a r q w w' d (ok (rows, c)) shaped validated guarded row h =
      let (e, o, made, put, enqueued) =
        after_audit_event_sound a r q (record w { rows = rows }) w' c d _ h in
      subst (λ x. AllWritten k a r q w x d) enqueued.world
        (subst
          (λ x.
            AllWritten k a r q w
              (record (audited (record w { rows = rows }) e) { outbox = enqueued.store }) x)
          enqueued.same
          (record {
            shaped = shaped_lem q.parsed shaped;
            validated = validated;
            guarded = guarded;
            row = row;
            event = e;
            linked = create_audit_event-linked k a _ q.tenant_id w.audit_events e refl made;
            appended = refl;
            recorded = input-recorded k a r q w.audit_events c e made;
            outbox_event = o;
            announced = aggregate_event-announced a _ _ _ _ _ o put;
            job = enqueued.job;
            enqueued = enqueued.done;
          }))

  module _ (k : Crypto) (a : Ambient) (transactional : Bool) (r : Resource Rows Item) (q : Request)
      (w : World Rows) where
    respond_created :
        (p : World Rows × Result (Created Item)) (w' : World Rows) (d : Created Item)
        → respond transactional w p ≡ (w', created d)
        → p ≡ (w', ok d)
    respond_created (v, err e) w' d h = absurd (refused e.message d (ap (λ p. p.1) h))
    respond_created (v, ok c) w' d h = cc (ap (λ p. p.0) h, created-injective c d (ap (λ p. p.1) h))

    after_guard_sound :
        (refusal : Option String) (w' : World Rows) (d : Created Item)
        → ensure_object_body q.parsed ≡ none
        → r.validate q.parsed ≡ none
        → r.guard q.parsed q.tenant_id w.rows ≡ refusal
        → after_guard k a transactional r q w refusal ≡ (w', created d)
        → AllWritten k a r q w w' d
    unfolding after_guard persist
    after_guard_sound (some message) w' d shaped validated guarded h =
        absurd (forbade message d (ap (λ p. p.1) h))
    after_guard_sound none w' d shaped validated guarded h =
        after_create_sound k a r q w w' d (r.create w.rows (r.build q.parsed q.tenant_id)) shaped
          validated guarded refl (respond_created _ w' d h)

    after_validation_sound :
        (refusal : Option String) (w' : World Rows) (d : Created Item)
        → ensure_object_body q.parsed ≡ none
        → r.validate q.parsed ≡ refusal
        → after_validation k a transactional r q w refusal ≡ (w', created d)
        → AllWritten k a r q w w' d
    unfolding after_validation
    after_validation_sound (some message) w' d shaped validated h =
        absurd (refused message d (ap (λ p. p.1) h))
    after_validation_sound none w' d shaped validated h =
        after_guard_sound (r.guard q.parsed q.tenant_id w.rows) w' d shaped validated refl h

    after_shape_sound :
        (refusal : Option String) (w' : World Rows) (d : Created Item)
        → ensure_object_body q.parsed ≡ refusal
        → after_shape k a transactional r q w refusal ≡ (w', created d)
        → AllWritten k a r q w w' d
    unfolding after_shape
    after_shape_sound (some message) w' d shaped h = absurd (refused message d (ap (λ p. p.1) h))
    after_shape_sound none w' d shaped h =
        after_validation_sound (r.validate q.parsed) w' d shaped refl h

    -- A write to a collection that is answered with status 201 had an object or null for a body, which was
    -- validated and let through by the guard. The row was created from what was built for the tenant; one
    -- audit event was appended, of the actor for the row and the tenant, and linked to the hash of the
    -- tenant's last event, or to null if the tenant had none; and a job for an event that names the row and
    -- the tenant was enqueued under the key of tenant, action and id.
    pub handle_collection_create-created :
        (w' : World Rows) (d : Created Item)
        → handle_collection_create k a transactional r q w ≡ (w', created d)
        → AllWritten k a r q w w' d
    unfolding handle_collection_create
    handle_collection_create-created w' d h =
        after_shape_sound (ensure_object_body q.parsed) w' d refl h
