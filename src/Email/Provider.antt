-- ===== src/Email/Provider.antt =====
-- What the provider reports of an email, of packages/email-delivery/src/index.js: the status of its
-- events and the suppressions of recipients.
use xygo_aec.Base.{
  ℕ, max, String, Bool, true, false, not, ◌||◌, [], ◌∷◌, Option, none, some, Result, ok, throw,
  ◌>>=◌, ◌>>◌, throw_if, includes, ◌⧺◌, ◌===◌, ltb, if◌then◌else◌, ◌≡◌, refl, sym, subst, arith,
  eq_iff, throw_if-bind, ok-injective,
}
use xygo_aec.Outbox.Jobs.{first_characters, same_text}
use xygo_aec.Email.{
  EmailDelivery, assert_email_delivery, bounded_text, normalize_email_recipient, is_terminal,
  next_attempts, webhook_status,
}

pub record EmailSuppression : Type 0 where
  pub id : String
  pub tenant_id : String
  pub normalized_recipient : String
  pub recipient_user_id : Option String
  pub reason : String
  pub source : String
  pub provider : String
  pub provider_event_id : String
  pub provider_message_id : Option String
  pub delivery_id : String
  pub resource_type : Option String
  pub resource_id : Option String
  pub created_at : ℕ
  pub updated_at : ℕ

-- The existing suppression, if there is one, and the incoming one.
unfoldable pub merge_email_suppression :
    Option EmailSuppression → EmailSuppression → Result EmailSuppression
merge_email_suppression none incoming = ok incoming
merge_email_suppression (some existing) incoming = do
  throw_if
      (not (existing.tenant_id === incoming.tenant_id)
        || not (existing.normalized_recipient === incoming.normalized_recipient))
      "Email suppression identity cannot be changed."
  ok (
      if ltb incoming.updated_at existing.updated_at
      then existing
      else record incoming { id = existing.id; created_at = existing.created_at })

unfoldable pub mark_email_delivery_suppressed :
    EmailDelivery → EmailSuppression → ℕ → ℕ → Result EmailDelivery
mark_email_delivery_suppressed d suppression attempt now = do
  assert_email_delivery d
  if is_terminal d
      then ok d
      else (normalize_email_recipient suppression.normalized_recipient >>= λ recipient.
          throw_if
            (not (suppression.tenant_id === d.tenant_id) || not (recipient === d.recipient_email))
            "Email suppression does not match delivery recipient and tenant."
          >> bounded_text suppression.reason "Email suppression reason" 100
          >>= λ reason. ok (record d {
            status = "suppressed";
            attempts = next_attempts d.attempts attempt;
            provider_status_at = some now;
            last_error = some ("recipient suppressed: " ⧺ reason);
            updated_at = now;
          }))

-- `created_at` of an event: no text, one that is no date, or a time.
pub data EventTime : Type 0 where
  missing unreadable : EventTime
  at_time : ℕ → EventTime

pub record ProviderEvent : Type 0 where
  pub kind : String
  pub email_id : Option String
  pub created_at : EventTime
  pub bounce_message : Option String

unfoldable pub time_of : EventTime → Result ℕ
time_of missing = throw "Webhook created_at is required."
time_of unreadable = throw "Webhook created_at is invalid."
time_of (at_time t) = ok t

abbrev pub is_later : Option ℕ → ℕ → Bool
is_later none t = false
is_later (some current) t = ltb t current

abbrev error_text : ProviderEvent → String
error_text e = elim e.bounce_message [ none ↦ e.kind | some m ↦ m ]

-- The delivery after an event of the status at the time.
unfoldable pub with_status : EmailDelivery → ProviderEvent → String → ℕ → EmailDelivery
with_status d e status t = record d {
  status = status;
  provider_status_at = some t;
  delivered_at = if status === "delivered" then some t else d.delivered_at;
  last_error =
      if includes ("failed" ∷ "bounced" ∷ "complained" ∷ "suppressed" ∷ []) status
      then some (first_characters 2000 (error_text e))
      else d.last_error;
  updated_at = t;
}

unfoldable pub apply_email_webhook_status : EmailDelivery → ProviderEvent → Result EmailDelivery
apply_email_webhook_status d e = do
  assert_email_delivery d
  if webhook_status e.kind === ""
      then ok d
      else (throw_if (not (same_text e.email_id d.provider_message_id))
            "Email webhook provider message does not match delivery."
          >> time_of e.created_at
          >>= λ t. ok (
              if is_later d.provider_status_at t
              then d
              else with_status d e (webhook_status e.kind) t))

-- What merging keeps and takes.
pub record Merged (existing incoming merged : EmailSuppression) : Type 0 where
  pub same_id : merged.id ≡ existing.id
  pub same_start : merged.created_at ≡ existing.created_at
  pub same_tenant : merged.tenant_id ≡ existing.tenant_id
  pub same_recipient : merged.normalized_recipient ≡ existing.normalized_recipient
  pub latest : merged.updated_at ≡ max existing.updated_at incoming.updated_at
  pub reason :
      merged.reason
      ≡ (if ltb incoming.updated_at existing.updated_at then existing.reason else incoming.reason)

Merged-by :
    (older : Bool) (existing incoming : EmailSuppression)
    → older ≡ ltb incoming.updated_at existing.updated_at
    → existing.tenant_id ≡ incoming.tenant_id
    → existing.normalized_recipient ≡ incoming.normalized_recipient
    → Merged existing incoming (
        if older
        then existing
        else record incoming { id = existing.id; created_at = existing.created_at })
Merged-by true existing incoming e t r = record {
  same_id = refl;
  same_start = refl;
  same_tenant = refl;
  same_recipient = refl;
  latest = ground arith;
  reason = rw (← e) refl;
}
Merged-by false existing incoming e t r = record {
  same_id = refl;
  same_start = refl;
  same_tenant = sym t;
  same_recipient = sym r;
  latest = ground arith;
  reason = rw (← e) refl;
}

identity_kept : (a b c d : String) → (not (a === b) || not (c === d)) ≡ false → (a ≡ b) × (c ≡ d)
identity_kept a b c d h = (ground (arith, eq_iff a b), ground (arith, eq_iff c d))

-- A suppression that is merged into another is of the same tenant and recipient, keeps the id and the
-- time of creation of the first, and has the reason and the time of the later one: an event that arrives
-- late does not undo a newer one.
pub merge_email_suppression_sound :
    (existing incoming merged : EmailSuppression)
    → merge_email_suppression (some existing) incoming ≡ ok merged
    → Merged existing incoming merged
unfolding merge_email_suppression
merge_email_suppression_sound existing incoming merged h =
    let (kept, h1) =
      throw_if-bind
        (not (existing.tenant_id === incoming.tenant_id)
          || not (existing.normalized_recipient === incoming.normalized_recipient))
        "Email suppression identity cannot be changed." _ h in
    let (tenant, recipient) = identity_kept _ _ _ _ kept in
    subst (Merged existing incoming) (ok-injective h1) (
      Merged-by (ltb incoming.updated_at existing.updated_at) existing incoming refl tenant
        recipient)
