-- ===== src/Tests/AppRuns.antt =====
-- The example's handler on a notification that is delivered twice.
use o4x.Prelude.{◌≡◌, refl, none, [], ◌∷◌, Text, codes, text_eq}
use o4x.Core.Errors.{Result, ok}
use o4x.Pgx.Inbox.{is_processed, complete, insert_completion}
use o4x.Consumer.Message.{SqsMessage}
use o4x.Core.Int64.{pos}
use o4x.App.Notifications.{
  NotificationSendEvent, Notifications, handle_sms, check_and_send, send_and_complete,
}
use o4x.App.Once.{times_sent, handle_all, sent_once}
use o4x.Tests.InboxRuns.{empty_inbox}

abbrev some_event : Text → Result NotificationSendEvent
some_event body = ok (record {
  notification_id = 9 ∷ [];
  type_name = codes "sms";
  recipient = codes "+81";
  subject = [];
  body = body;
})

abbrev pub first_delivery : SqsMessage
first_delivery = record {
  message_id = codes "m1";
  receipt_handle = codes "r1";
  body = codes "{}";
  event_type = codes "notification.sms";
  event_id = 7 ∷ [];
  idempotency_key = codes "n-9";
  metadata = none;
  receive_count = pos 1;
}

abbrev pub second_delivery : SqsMessage
second_delivery = record first_delivery {
  message_id = codes "m2";
  receipt_handle = codes "r2";
  receive_count = pos 2;
}

abbrev nothing_sent : Notifications
nothing_sent = record { inbox = empty_inbox; sent = [] }

sent_once_example :
    times_sent (7 ∷ []) (
      handle_all some_event
        (second_delivery ∷ [])
        (handle_sms some_event first_delivery nothing_sent).0)
    ≡ times_sent (7 ∷ []) (handle_sms some_event first_delivery nothing_sent).0
unfolding handle_sms check_and_send send_and_complete is_processed complete insert_completion
    text_eq
sent_once_example = sent_once some_event first_delivery (second_delivery ∷ []) nothing_sent refl

was_sent : times_sent (7 ∷ []) (handle_sms some_event first_delivery nothing_sent).0 ≡ 1
unfolding handle_sms check_and_send send_and_complete is_processed complete insert_completion
    text_eq
was_sent = refl
