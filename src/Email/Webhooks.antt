-- ===== src/Email/Webhooks.antt =====
-- Runs of the provider's events on one delivery, of packages/email-delivery/src/index.js.
use xygo_aec.Base.{
  ℕ, ◌≤◌, String, false, not, List, [], ◌∷◌, Option, none, some, Result, ok, ◌>>=◌, ◌>>◌, throw_if,
  ◌===◌, if◌then◌else◌, ◌≡◌, refl, ◌∙◌, subst, arith, bind_inversion, ok-injective, Bool-cases, inl,
  inr,
}
use xygo_aec.Outbox.Jobs.{same_text}
use xygo_aec.Email.{EmailDelivery, assert_email_delivery, webhook_status}
use xygo_aec.Email.Provider.{
  ProviderEvent, time_of, is_later, with_status, apply_email_webhook_status,
}

-- Events one after another; the first that throws ends the run.
unfoldable pub run_webhooks : EmailDelivery → List ProviderEvent → Result EmailDelivery
run_webhooks d [] = ok d
run_webhooks d (e ∷ es) = apply_email_webhook_status d e >>= λ f. run_webhooks f es

-- The first time, if there is one, is not after the second.
abbrev pub NotAfter : Option ℕ → Option ℕ → Type 0
NotAfter none t = Unit
NotAfter (some s) none = ⊥
NotAfter (some s) (some t) = s ≤ t

NotAfter-refl : (s : Option ℕ) → NotAfter s s
NotAfter-refl none = tt
NotAfter-refl (some s) = omega arith

NotAfter-trans : (s t u : Option ℕ) → NotAfter s t → NotAfter t u → NotAfter s u
NotAfter-trans none t u h k = tt
NotAfter-trans (some s) none u h k = absurd h
NotAfter-trans (some s) (some t) none h k = absurd k
NotAfter-trans (some s) (some t) (some u) h k = omega (arith, h, k)

NotAfter-is_later : (s : Option ℕ) (t : ℕ) → is_later s t ≡ false → NotAfter s (some t)
NotAfter-is_later none t h = tt
NotAfter-is_later (some s) t h = ground arith

-- What an event of the provider keeps.
pub record Follows (d e : EmailDelivery) : Type 0 where
  pub same_id : e.id ≡ d.id
  pub same_message_id : e.provider_message_id ≡ d.provider_message_id
  pub same_attempts : e.attempts ≡ d.attempts
  pub same_recipient : e.recipient_email ≡ d.recipient_email
  pub later : NotAfter d.provider_status_at e.provider_status_at

Follows-refl : (d : EmailDelivery) → Follows d d
Follows-refl d = record {
  same_id = refl;
  same_message_id = refl;
  same_attempts = refl;
  same_recipient = refl;
  later = NotAfter-refl d.provider_status_at;
}

Follows-trans : (d e f : EmailDelivery) → Follows d e → Follows e f → Follows d f
Follows-trans d e f k l = record {
  same_id = l.same_id ∙ k.same_id;
  same_message_id = l.same_message_id ∙ k.same_message_id;
  same_attempts = l.same_attempts ∙ k.same_attempts;
  same_recipient = l.same_recipient ∙ k.same_recipient;
  later =
      NotAfter-trans d.provider_status_at e.provider_status_at f.provider_status_at k.later l.later;
}

with_status-Follows :
    (d : EmailDelivery) (e : ProviderEvent) (status : String) (t : ℕ)
    → Follows d (if is_later d.provider_status_at t then d else with_status d e status t)
unfolding with_status
with_status-Follows d e status t = elim (Bool-cases (is_later d.provider_status_at t)) [
  | inl late ↦ rw late (Follows-refl d)
  | inr fresh ↦ rw fresh (record {
    same_id = refl;
    same_message_id = refl;
    same_attempts = refl;
    same_recipient = refl;
    later = NotAfter-is_later d.provider_status_at t fresh;
  })
]

apply_email_webhook_status-Follows :
    (d f : EmailDelivery) (e : ProviderEvent) → apply_email_webhook_status d e ≡ ok f → Follows d f
unfolding apply_email_webhook_status
apply_email_webhook_status-Follows d f e h =
    let (u, checked, h1) = bind_inversion (assert_email_delivery d) _ h in
    elim (Bool-cases (webhook_status e.kind === "")) [
      | inl unknown ↦ subst (Follows d) (ok-injective (rw unknown at h1)) (Follows-refl d)
      | inr known ↦
          let (t, read, h2) =
            bind_inversion
              (throw_if (not (same_text e.email_id d.provider_message_id))
                  "Email webhook provider message does not match delivery."
                >> time_of e.created_at)
              _ (rw known at h1) in
          subst (Follows d) (ok-injective h2) (with_status-Follows d e (webhook_status e.kind) t)
    ]

-- After a run of events of the provider, in any order, in which nothing throws, the time of the
-- provider's status has not gone back, and the id, the provider's message id, the attempts and the
-- recipient are as before.
pub run_webhooks-Follows :
    (d f : EmailDelivery) (es : List ProviderEvent) → run_webhooks d es ≡ ok f → Follows d f
unfolding run_webhooks
run_webhooks-Follows d f [] h = subst (Follows d) (ok-injective h) (Follows-refl d)
run_webhooks-Follows d f (e ∷ es) h =
    let (g, made, rest) = bind_inversion (apply_email_webhook_status d e) _ h in
    Follows-trans d g f (apply_email_webhook_status-Follows d g e made)
      (run_webhooks-Follows g f es rest)
