-- ===== src/Email/Runs.antt =====
-- Runs of the worker's steps and of the provider's events on one delivery, of
-- packages/email-delivery/src/index.js.
use xygo_aec.Base.{
  ℕ, ◌≤◌, String, true, false, not, ◌||◌, List, [], ◌∷◌, Result, ok, ◌>>=◌, ◌>>◌, ◌===◌,
  if◌then◌else◌, ◌≡◌, refl, ap, ◌∙◌, subst, arith, bind_inversion, ok-injective, throw_if,
  Bool-cases, inl, inr,
}
use xygo_aec.Email.{
  EmailDelivery, assert_email_delivery, bounded_text, is_terminal, normalize_email_recipient,
  next_attempts, mark_email_delivery_sending, mark_email_delivery_accepted,
  mark_email_delivery_failed,
}
use xygo_aec.Email.Provider.{EmailSuppression, mark_email_delivery_suppressed}

-- A step of the worker.
pub data Mark : Type 0 where
  sending : ℕ → ℕ → Mark
  accepted : String → String → ℕ → Mark
  failed : String → ℕ → ℕ → Mark
  suppressed : EmailSuppression → ℕ → ℕ → Mark

unfoldable pub apply_mark : EmailDelivery → Mark → Result EmailDelivery
apply_mark d (sending attempt now) = mark_email_delivery_sending d attempt now
apply_mark d (accepted provider message_id now) =
    mark_email_delivery_accepted d provider message_id now
apply_mark d (failed message attempt now) = mark_email_delivery_failed d message attempt now
apply_mark d (suppressed s attempt now) = mark_email_delivery_suppressed d s attempt now

-- Steps one after another; the first that throws ends the run.
unfoldable pub run_marks : EmailDelivery → List Mark → Result EmailDelivery
run_marks d [] = ok d
run_marks d (m ∷ ms) = apply_mark d m >>= λ e. run_marks e ms

-- What a step of the worker keeps.
pub record Keeps (d e : EmailDelivery) : Type 0 where
  pub same_id : e.id ≡ d.id
  pub same_recipient : e.recipient_email ≡ d.recipient_email
  pub same_key : e.idempotency_key ≡ d.idempotency_key
  pub same_delivery_time : e.delivered_at ≡ d.delivered_at
  pub more_attempts : d.attempts ≤ e.attempts
  pub final : is_terminal d ≡ true → e ≡ d

Keeps-refl : (d : EmailDelivery) → Keeps d d
Keeps-refl d = record {
  same_id = refl;
  same_recipient = refl;
  same_key = refl;
  same_delivery_time = refl;
  more_attempts = omega arith;
  final = λ h. refl;
}

Keeps-trans : (d e f : EmailDelivery) → Keeps d e → Keeps e f → Keeps d f
Keeps-trans d e f k l = record {
  same_id = l.same_id ∙ k.same_id;
  same_recipient = l.same_recipient ∙ k.same_recipient;
  same_key = l.same_key ∙ k.same_key;
  same_delivery_time = l.same_delivery_time ∙ k.same_delivery_time;
  more_attempts = omega (arith, k.more_attempts, l.more_attempts);
  final = λ h. l.final (ap is_terminal (k.final h) ∙ h) ∙ k.final h;
}

next_attempts_more : (n attempt : ℕ) → n ≤ next_attempts n attempt
next_attempts_more n attempt = ground arith

-- A delivery with other values in the fields that a step may change.
Keeps-changed :
    (d e : EmailDelivery)
    → is_terminal d ≡ false
    → e.id ≡ d.id
    → e.recipient_email ≡ d.recipient_email
    → e.idempotency_key ≡ d.idempotency_key
    → e.delivered_at ≡ d.delivered_at
    → d.attempts ≤ e.attempts
    → Keeps d e
Keeps-changed d e live i r k t a = record {
  same_id = i;
  same_recipient = r;
  same_key = k;
  same_delivery_time = t;
  more_attempts = a;
  final = λ h. absurd (cc (h, live));
}

-- A step that either leaves a terminal delivery or changes another.
Keeps-if :
    (d e : EmailDelivery)
    → (is_terminal d ≡ false → Keeps d e)
    → Keeps d (if is_terminal d then d else e)
Keeps-if d e k = elim (Bool-cases (is_terminal d)) [
  | inl h ↦ rw h (Keeps-refl d)
  | inr h ↦ rw h (k h)
]

sending-Keeps :
    (d e : EmailDelivery) (attempt now : ℕ)
    → mark_email_delivery_sending d attempt now ≡ ok e
    → Keeps d e
unfolding mark_email_delivery_sending
sending-Keeps d e attempt now h =
    let (u, checked, h1) = bind_inversion (assert_email_delivery d) _ h in
    subst (Keeps d) (ok-injective h1) (
      Keeps-if d _ (λ live.
        Keeps-changed d _ live refl refl refl refl (next_attempts_more d.attempts attempt)))

failed-Keeps :
    (d e : EmailDelivery) (message : String) (attempt now : ℕ)
    → mark_email_delivery_failed d message attempt now ≡ ok e
    → Keeps d e
unfolding mark_email_delivery_failed
failed-Keeps d e message attempt now h =
    let (u, checked, h1) = bind_inversion (assert_email_delivery d) _ h in
    subst (Keeps d) (ok-injective h1) (
      Keeps-if d _ (λ live.
        Keeps-changed d _ live refl refl refl refl (next_attempts_more d.attempts attempt)))

accepted-Keeps :
    (d e : EmailDelivery) (provider message_id : String) (now : ℕ)
    → mark_email_delivery_accepted d provider message_id now ≡ ok e
    → Keeps d e
unfolding mark_email_delivery_accepted
accepted-Keeps d e provider message_id now h =
    let (u, checked, h1) = bind_inversion (assert_email_delivery d) _ h in
    elim (Bool-cases (is_terminal d)) [
      | inl final ↦ subst (Keeps d) (ok-injective (rw final at h1)) (Keeps-refl d)
      | inr live ↦
          let (by, named, h2) =
            bind_inversion (bounded_text provider "Email provider" 100) _ (rw live at h1) in
          let (id, given, h3) =
            bind_inversion (bounded_text message_id "Provider message id" 200) _ h2 in
          subst (Keeps d) (ok-injective h3)
            (Keeps-changed d _ live refl refl refl refl (omega arith))
    ]

suppressed-Keeps :
    (d e : EmailDelivery) (s : EmailSuppression) (attempt now : ℕ)
    → mark_email_delivery_suppressed d s attempt now ≡ ok e
    → Keeps d e
unfolding mark_email_delivery_suppressed
suppressed-Keeps d e s attempt now h =
    let (u, checked, h1) = bind_inversion (assert_email_delivery d) _ h in
    elim (Bool-cases (is_terminal d)) [
      | inl final ↦ subst (Keeps d) (ok-injective (rw final at h1)) (Keeps-refl d)
      | inr live ↦
          let (recipient, normal, h2) =
            bind_inversion (normalize_email_recipient s.normalized_recipient) _ (rw live at h1) in
          let (reason, given, h4) =
            bind_inversion
              (throw_if (not (s.tenant_id === d.tenant_id) || not (recipient === d.recipient_email))
                  "Email suppression does not match delivery recipient and tenant."
                >> bounded_text s.reason "Email suppression reason" 100)
              _ h2 in
          subst (Keeps d) (ok-injective h4)
            (Keeps-changed d _ live refl refl refl refl (next_attempts_more d.attempts attempt))
    ]

apply_mark-Keeps : (d e : EmailDelivery) (m : Mark) → apply_mark d m ≡ ok e → Keeps d e
unfolding apply_mark
apply_mark-Keeps d e (sending attempt now) h = sending-Keeps d e attempt now h
apply_mark-Keeps d e (accepted provider message_id now) h =
    accepted-Keeps d e provider message_id now h
apply_mark-Keeps d e (failed message attempt now) h = failed-Keeps d e message attempt now h
apply_mark-Keeps d e (suppressed s attempt now) h = suppressed-Keeps d e s attempt now h

-- After a run of the worker's steps on a delivery in which nothing throws, its id, recipient, idempotency
-- key and time of delivery are as before, its attempts are not fewer, and a delivery that was delivered,
-- bounced, complained of or suppressed is not changed at all.
pub run_marks-Keeps : (d e : EmailDelivery) (ms : List Mark) → run_marks d ms ≡ ok e → Keeps d e
unfolding run_marks
run_marks-Keeps d e [] h = subst (Keeps d) (ok-injective h) (Keeps-refl d)
run_marks-Keeps d e (m ∷ ms) h =
    let (f, made, rest) = bind_inversion (apply_mark d m) _ h in
    Keeps-trans d f e (apply_mark-Keeps d f m made) (run_marks-Keeps f e ms rest)
