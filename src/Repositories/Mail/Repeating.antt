-- ===== src/Repositories/Mail/Repeating.antt =====
-- What is done once though it is asked for twice, in apps/api/src/repositories/memory.js: the event of a
-- webhook, and the creation of an email delivery.
use xygo_aec.Base.{
  String, Bool, true, false, List, [], ◌∷◌, ◌++◌, find, Option, none, some, Failure, Result, ok,
  err, throw, throw_code, ◌>>=◌, ◌===◌, ===_refl, if◌then◌else◌, ◌≡◌, refl, ap, ◌∙◌, subst, arith,
  ok-injective,
}
use xygo_aec.Outbox.Jobs.{same_text}
use xygo_aec.Email.{EmailDelivery, email_delivery_intent_matches}
use xygo_aec.Email.Provider.{EmailSuppression, ProviderEvent}
use xygo_aec.Email.Suppressions.{create_email_suppression_from_webhook}
use xygo_aec.Repositories.{Repository}
use xygo_aec.Repositories.Maps.{has, is_some, set, values, has-set, set_new}
use xygo_aec.Repositories.Memory.{insert_new}
use xygo_aec.Repositories.Mail.{
  Evidence, Applied, after_suppressions, after_status, apply_to_found, apply_email_webhook,
  delivery_of_message, Queued, insert_delivery, delivery_of_key, create_email_delivery, merge_into,
}

-- An event that was applied to a delivery.
abbrev applied_to : EmailDelivery → Result Applied
applied_to d = ok (record { duplicate = false; delivery = some d })

module _ (sha256 : String → String) (id : String) (event : ProviderEvent) (r' : Repository)
    (d : EmailDelivery) where
  IsRecorded : Type 0
  IsRecorded = has id r'.email_webhook_events ≡ true

  not_applied :
      {e : Failure} {r : Repository}
      → ◌≡◌ {A = Repository × Result Applied} (r, err e) (r', applied_to d)
      → ⊥
  not_applied {e} h = thrown (ap (λ p. p.1) h)
    where
      thrown : err e ≡ applied_to d → ⊥
      thrown e' = cc

  after_suppressions-IsRecorded :
      (r : Repository) (evidence : Evidence) (updated : EmailDelivery)
      (m : Result (List (String × EmailSuppression)))
      → after_suppressions r id event evidence updated m ≡ (r', applied_to d)
      → IsRecorded
  unfolding after_suppressions IsRecorded
  after_suppressions-IsRecorded r evidence updated (err e) h = absurd (not_applied h)
  after_suppressions-IsRecorded r evidence updated (ok suppressions) h =
      subst (λ q. has id q.email_webhook_events ≡ true) (ap (λ p. p.0) h)
        (ap is_some (has-set id _ r.email_webhook_events))

  after_status-IsRecorded :
      (r : Repository) (evidence : EmailDelivery → Evidence) (m : Result EmailDelivery)
      → after_status sha256 r id event evidence m ≡ (r', applied_to d)
      → IsRecorded
  unfolding after_status
  after_status-IsRecorded r evidence (err e) h = absurd (not_applied h)
  after_status-IsRecorded r evidence (ok updated) h =
      let written = record r { email_deliveries = set updated.id updated r.email_deliveries } in
      after_suppressions-IsRecorded written (evidence updated) updated
        (create_email_suppression_from_webhook sha256 updated event id >>= λ incoming.
          merge_into written incoming)
        h

  apply_to_found-IsRecorded :
      (r : Repository) (evidence : EmailDelivery → Evidence) (found : Option EmailDelivery)
      → apply_to_found sha256 r id event evidence found ≡ (r', applied_to d)
      → IsRecorded
  unfolding apply_to_found
  apply_to_found-IsRecorded r evidence none h = absurd (nowhere (ap (λ p. p.1) h))
    where
      nowhere : ok (record { duplicate = false; delivery = none }) ≡ applied_to d → ⊥
      nowhere e' = cc
  apply_to_found-IsRecorded r evidence (some delivery) h = after_status-IsRecorded r evidence _ h

  -- An event of the provider that was applied to a delivery is applied once: the same webhook id again,
  -- with whatever event and evidence, is answered as a duplicate and changes nothing.
  pub apply_email_webhook-once :
      (r : Repository) (evidence : EmailDelivery → Evidence) (again : ProviderEvent)
      (other : EmailDelivery → Evidence)
      → apply_email_webhook sha256 r id event evidence ≡ (r', applied_to d)
      → apply_email_webhook sha256 r' id again other
        ≡ (r', ok (record { duplicate = true; delivery = none }))
  unfolding apply_email_webhook IsRecorded
  apply_email_webhook-once r evidence again other h =
      let recorded : IsRecorded = by_test (has id r.email_webhook_events) h in rw recorded refl
    where
      by_test :
          (b : Bool)
          → (if b
              then (r, ok (record { duplicate = true; delivery = none }))
              else apply_to_found sha256 r id event evidence (delivery_of_message r event.email_id))
            ≡ (r', applied_to d)
          → IsRecorded
      by_test true h' = absurd (twice (ap (λ p. p.1) h'))
        where
          twice : ok (record { duplicate = true; delivery = none }) ≡ applied_to d → ⊥
          twice e' = cc
      by_test false h' = apply_to_found-IsRecorded r evidence _ h'

same_text_refl : (s : Option String) → same_text s s ≡ true
same_text_refl none = refl
same_text_refl (some s) = ===_refl s

-- A delivery is the same logical delivery as itself.
intent_refl : (d : EmailDelivery) → email_delivery_intent_matches d d ≡ true
unfolding email_delivery_intent_matches
intent_refl d = simp (===_refl, same_text_refl)

find-append :
    (p : EmailDelivery → Bool) (ds : List EmailDelivery) (d : EmailDelivery)
    → find p ds ≡ none
    → p d ≡ true
    → find p (ds ++ d ∷ []) ≡ some d
find-append p [] d h e = rw e refl
find-append p (c ∷ cs) d h e = ground (arith, find-append p cs d)

abbrev with_new :
    Repository → EmailDelivery → List (String × EmailDelivery) → Result (Repository × Queued)
with_new r d es = ok (record r { email_deliveries = es }, record { created = true; delivery = d })

abbrev known_one : Repository → EmailDelivery → Result (Repository × Queued)
known_one r existing = ok (r, record { created = false; delivery = existing })

abbrev conflict : Result (Repository × Queued)
conflict =
    throw_code "Email delivery idempotency key is bound to a different logical delivery."
      "email_idempotency_conflict"

-- What a creation gives, by whether the key was known.
insert_delivery-once :
    (r r' : Repository) (d : EmailDelivery) (q : Queued) (known : Option EmailDelivery)
    → delivery_of_key r d.idempotency_key ≡ known
    → insert_delivery r d known ≡ ok (r', q)
    → (delivery_of_key r' d.idempotency_key ≡ some q.delivery)
      × (email_delivery_intent_matches q.delivery d ≡ true)
unfolding insert_delivery insert_new
insert_delivery-once r r' d q (some existing) k h =
    by_test (email_delivery_intent_matches existing d) refl h
  where
    by_test :
        (b : Bool)
        → email_delivery_intent_matches existing d ≡ b
        → (if b then known_one r existing else conflict) ≡ ok (r', q)
        → (delivery_of_key r' d.idempotency_key ≡ some q.delivery)
          × (email_delivery_intent_matches q.delivery d ≡ true)
    by_test false e h' = cc
    by_test true e h' =
        let same = ok-injective h' in
        (
          subst (λ p. delivery_of_key p.0 d.idempotency_key ≡ some p.1.delivery) same k,
          subst (λ p. email_delivery_intent_matches p.1.delivery d ≡ true) same e,
        )
insert_delivery-once r r' d q none k h = by_test (has d.id r.email_deliveries) refl h
  where
    by_test :
        (b : Bool)
        → has d.id r.email_deliveries ≡ b
        → ((if b
              then throw "Email delivery id already exists."
              else ok (set d.id d r.email_deliveries))
            >>= with_new r d)
          ≡ ok (r', q)
        → (delivery_of_key r' d.idempotency_key ≡ some q.delivery)
          × (email_delivery_intent_matches q.delivery d ≡ true)
    by_test true e h' = cc
    by_test false e h' =
        let same = ok-injective h' in
        (
          subst (λ p. delivery_of_key p.0 d.idempotency_key ≡ some p.1.delivery) same
              (ap (find (λ c. c.idempotency_key === d.idempotency_key))
                  (set_new d.id d r.email_deliveries e)
                ∙ find-append (λ c. c.idempotency_key === d.idempotency_key)
                    (values r.email_deliveries) d k (===_refl d.idempotency_key)),
          subst (λ p. email_delivery_intent_matches p.1.delivery d ≡ true) same (intent_refl d),
        )

-- The creation of an email delivery that does not throw, asked for again with the same delivery, creates
-- nothing: the repository stays as it is, and the delivery that is returned is the one that the first
-- request returned, under the same idempotency key and with the same intent.
pub create_email_delivery-once :
    (r r' : Repository) (d : EmailDelivery) (q : Queued)
    → create_email_delivery r d ≡ ok (r', q)
    → (email_delivery_intent_matches q.delivery d ≡ true)
      × (create_email_delivery r' d ≡ ok (r', record { created = false; delivery = q.delivery }))
unfolding create_email_delivery
create_email_delivery-once r r' d q h =
    let (found, same) = insert_delivery-once r r' d q _ refl h in
    (same, ap (insert_delivery r' d) found ∙ again same)
  where
    again :
        email_delivery_intent_matches q.delivery d ≡ true
        → insert_delivery r' d (some q.delivery)
          ≡ ok (r', record { created = false; delivery = q.delivery })
    again same = rw same refl
