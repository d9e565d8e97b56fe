-- ===== src/Examples/Email.antt =====
-- A delivery that is sent, and a suppression that arrives late.
use xygo_aec.Base.{List, [], ◌∷◌, none, some, ok, trim, to_lower, ◌≡◌, refl}
use xygo_aec.Email.{
  EmailDelivery, assert_email_delivery, bounded_text, email_address, is_address_from,
  webhook_status, mark_email_delivery_sending, mark_email_delivery_accepted,
}
use xygo_aec.Email.Webhooks.{run_webhooks, Follows, run_webhooks-Follows}
use xygo_aec.Email.Provider.{
  ProviderEvent, at_time, time_of, with_status, apply_email_webhook_status, EmailSuppression,
  merge_email_suppression,
}
use xygo_aec.Email.Runs.{Mark, sending, accepted, apply_mark, run_marks, Keeps, run_marks-Keeps}

abbrev pub delivery : EmailDelivery
delivery = record {
  id = "d1";
  tenant_id = "tenant-a";
  recipient_user_id = none;
  recipient_email = "ana@example.com";
  kind = "report_ready";
  resource_type = none;
  resource_id = none;
  idempotency_key = "k1";
  status = "queued";
  attempts = 0;
  provider = none;
  provider_message_id = none;
  provider_status_at = none;
  last_error = none;
  message = record {
    subject = "Report";
    text = "Ready";
    html = "<p>Ready</p>";
    action_url = "https://x/";
  };
  created_at = 1;
  updated_at = 1;
  accepted_at = none;
  delivered_at = none;
}

abbrev marks : List Mark
marks = sending 1 5 ∷ accepted "resend" "m1" 6 ∷ []

marked : (e : EmailDelivery) × (run_marks delivery marks ≡ ok e)
unfolding run_marks apply_mark mark_email_delivery_sending mark_email_delivery_accepted
    assert_email_delivery bounded_text email_address is_address_from trim to_lower
marked = (_, refl)

run_marks-Keeps_example : Keeps delivery marked.0
run_marks-Keeps_example = run_marks-Keeps delivery marked.0 marks marked.1

abbrev suppression : EmailSuppression
suppression = record {
  id = "s1";
  tenant_id = "tenant-a";
  normalized_recipient = "ana@example.com";
  recipient_user_id = none;
  reason = "complaint";
  source = "provider_webhook";
  provider = "resend";
  provider_event_id = "w1";
  provider_message_id = some "m1";
  delivery_id = "d1";
  resource_type = none;
  resource_id = none;
  created_at = 9;
  updated_at = 9;
}

abbrev late : EmailSuppression
late = record suppression { reason = "bounce"; created_at = 7; updated_at = 7 }

merged : merge_email_suppression (some suppression) late ≡ ok suppression
unfolding merge_email_suppression
merged = refl

abbrev events : List ProviderEvent
events =
    record {
      kind = "email.delivered";
      email_id = none;
      created_at = at_time 20;
      bounce_message = none;
    }
    ∷ record {
      kind = "email.delivery_delayed";
      email_id = none;
      created_at = at_time 15;
      bounce_message = none;
    }
    ∷ []

reported : (e : EmailDelivery) × (run_webhooks delivery events ≡ ok e)
unfolding run_webhooks apply_email_webhook_status with_status webhook_status time_of
    assert_email_delivery bounded_text email_address is_address_from trim to_lower
reported = (_, refl)

run_webhooks-Follows_example : Follows delivery reported.0
run_webhooks-Follows_example = run_webhooks-Follows delivery reported.0 events reported.1
