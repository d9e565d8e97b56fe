-- ===== src/Api/Collections/Effects.antt =====
-- Which rows a write to a collection leaves, whatever the response is: `handleCollectionCreate` of
-- apps/api/src/handlers.js over the repository of apps/api/src/repositories/memory.js.
use xygo_aec.Base.{
  String, Bool, true, false, [], ◌∷◌, ◌++◌, Option, none, some, Result, ok, err, if◌then◌else◌,
  ◌===◌, ◌≡◌, ◌⊎◌, inl, inr, refl, sym, ap, ◌∙◌,
}
use xygo_aec.Audit.{Crypto, Ambient, AuditEvent, OutboxEvent}
use xygo_aec.Outbox.Jobs.{Job}
use xygo_aec.Outbox.Store.{Store}
use xygo_aec.Repositories.{Repository, Item}
use xygo_aec.Api.Collections.{
  Created, Resource, World, Request, Response, created, ensure_object_body, after_enqueue,
  after_outbox_event, after_audit_event, after_create, persist, respond, after_guard,
  after_validation, after_shape, handle_collection_create,
}
use xygo_aec.Api.Collections.Writing.{handle_collection_create-created}
use xygo_aec.Api.Collections.Table.{Segment, list_collection, collection_resource}
use xygo_aec.Api.Collections.Isolation.{create_in_collection-Added}

module _ {Rows Item : Type 0} (k : Crypto) (a : Ambient) (transactional : Bool)
    (r : Resource Rows Item) (q : Request) where
  rows-after_enqueue :
      (w : World Rows) (c : Created Item) (result : Result (Store × Job))
      → (after_enqueue w c result).0.rows ≡ w.rows
  unfolding after_enqueue
  rows-after_enqueue w c (err e) = refl
  rows-after_enqueue w c (ok (s, j)) = refl

  rows-after_outbox_event :
      (w : World Rows) (c : Created Item) (result : Result OutboxEvent)
      → (after_outbox_event r q w c result).0.rows ≡ w.rows
  unfolding after_outbox_event
  rows-after_outbox_event w c (err e) = refl
  rows-after_outbox_event w c (ok o) = rows-after_enqueue w c _

  rows-after_audit_event :
      (w : World Rows) (c : Created Item) (result : Result AuditEvent)
      → (after_audit_event a r q w c result).0.rows ≡ w.rows
  unfolding after_audit_event
  rows-after_audit_event w c (err e) = refl
  rows-after_audit_event w c (ok e) = rows-after_outbox_event _ c _

  -- The rows are as they were, or those of a creation that the guard let through.
  abbrev Kept : World Rows → World Rows → Type 0
  Kept w w' =
      (w'.rows ≡ w.rows)
      ⊎ ((c : Created Item) × (r.guard q.parsed q.tenant_id w.rows ≡ none)
          × (r.create w.rows (r.build q.parsed q.tenant_id) ≡ ok (w'.rows, c)))

  after_create-Kept :
      (w : World Rows) (result : Result (Rows × Created Item))
      → r.guard q.parsed q.tenant_id w.rows ≡ none
      → r.create w.rows (r.build q.parsed q.tenant_id) ≡ result
      → Kept w (after_create k a r q w result).0
  unfolding after_create
  after_create-Kept w (err e) g h = inl refl
  after_create-Kept w (ok (rows, c)) g h =
      inr (
        c,
        g,
        h ∙ ap (λ x. ok (x, c)) (sym (rows-after_audit_event (record w { rows = rows }) c _)),
      )

  respond-Kept :
      (w : World Rows) (p : World Rows × Result (Created Item))
      → Kept w p.0
      → Kept w (respond transactional w p).0
  respond-Kept w (v, ok c) h = h
  respond-Kept w (v, err e) h = rolled_back transactional
    where
      rolled_back : (b : Bool) → Kept w (if b then w else v)
      rolled_back true = inl refl
      rolled_back false = h

  after_guard-Kept :
      (w : World Rows) (refusal : Option String)
      → r.guard q.parsed q.tenant_id w.rows ≡ refusal
      → Kept w (after_guard k a transactional r q w refusal).0
  unfolding after_guard persist
  after_guard-Kept w (some m) g = inl refl
  after_guard-Kept w none g = respond-Kept w _ (after_create-Kept w _ g refl)

  after_validation-Kept :
      (w : World Rows) (refusal : Option String)
      → Kept w (after_validation k a transactional r q w refusal).0
  unfolding after_validation
  after_validation-Kept w (some m) = inl refl
  after_validation-Kept w none = after_guard-Kept w _ refl

  after_shape-Kept :
      (w : World Rows) (refusal : Option String)
      → Kept w (after_shape k a transactional r q w refusal).0
  unfolding after_shape
  after_shape-Kept w (some m) = inl refl
  after_shape-Kept w none = after_validation-Kept w (r.validate q.parsed)

  handle_collection_create-Kept :
      (w : World Rows) → Kept w (handle_collection_create k a transactional r q w).0
  unfolding handle_collection_create
  handle_collection_create-Kept w = after_shape-Kept w (ensure_object_body q.parsed)

module _ (k : Crypto) (a : Ambient) (transactional : Bool) (s : Segment) (q : Request)
    (w : World Repository) where
  abbrev after : World Repository × Response Item
  after = handle_collection_create k a transactional (collection_resource s) q w

  -- A write to any collection, whatever it is answered with, leaves every list of every other tenant than
  -- that of the path as it was: also where an exception came after the row was written, and also the lists
  -- of findings, which depend on the review runs.
  pub handle_collection_create_isolated :
      (s' : Segment) (other : String)
      → (q.tenant_id === other) ≡ false
      → list_collection s' after.0.rows other ≡ list_collection s' w.rows other
  handle_collection_create_isolated s' other far =
      by_case (handle_collection_create-Kept k a transactional (collection_resource s) q w)
    where
      by_case :
          Kept k a transactional (collection_resource s) q w after.0
          → list_collection s' after.0.rows other ≡ list_collection s' w.rows other
      by_case (inl same) = ap (λ rows. list_collection s' rows other) same
      by_case (inr (c, guarded, row)) =
          let added =
            create_in_collection-Added w.rows after.0.rows q.parsed q.tenant_id c s guarded row in
          added.isolated s' other far

  -- A write that is answered with status 201 shows the created record as the last of the list of its
  -- collection for the tenant of the path, behind all that were listed before.
  pub handle_collection_create_visible :
      (w' : World Repository) (d : Created Item)
      → handle_collection_create k a transactional (collection_resource s) q w ≡ (w', created d)
      → list_collection s w'.rows q.tenant_id ≡ list_collection s w.rows q.tenant_id ++ d.item ∷ []
  handle_collection_create_visible w' d h =
      let all =
        handle_collection_create-created k a transactional (collection_resource s) q w w' d h in
      let added =
        create_in_collection-Added w.rows w'.rows q.parsed q.tenant_id d s all.guarded all.row in
      added.own
