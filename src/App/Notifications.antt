-- ===== src/App/Notifications.antt =====
-- examples/app/internal/consumer/notification_handler.go: the handlers of the events notification.sms and
-- notification.push, which send what is only a line of the log. `json.Unmarshal` is a parameter, and
-- `sleepConfig` is left out.
use o4x.Prelude.{Bool, true, false, List, [], ◌∷◌, ◌++◌, Text, codes}
use o4x.Core.Errors.{GoError, nil, wrapped, Result, ok, err}
use o4x.Pgx.Inbox.{InboxDatabase, is_processed, complete}
use o4x.Consumer.Message.{SqsMessage}
use o4x.Consumer.Router.{Handler}

pub record NotificationSendEvent : Type 0 where
  pub notification_id : Text
  pub type_name : Text
  pub recipient : Text
  pub subject : Text
  pub body : Text

-- The inbox, and the messages whose notification was sent.
pub record Notifications : Type 0 where
  pub inbox : InboxDatabase
  pub sent : List SqsMessage

abbrev pub consumer_name : Text
consumer_name = codes "notification"

abbrev pub in_step : Text → GoError → GoError
in_step step nil = nil
in_step step e = wrapped step e []

-- The notification is sent, and the event is marked as completed.
unfoldable pub send_and_complete : Handler Notifications
send_and_complete msg w =
    let (inbox, e) = complete consumer_name msg.event_id w.inbox in
    (
      record { inbox = inbox; sent = w.sent ++ msg ∷ [] },
      in_step (codes "failed to mark as completed: ") e,
    )

abbrev pub unless_processed : Result Bool → Handler Notifications
unless_processed (err e) msg w = (w, wrapped (codes "failed to check inbox: ") e [])
unless_processed (ok true) msg w = (w, nil)
unless_processed (ok false) msg w = send_and_complete msg w

unfoldable pub check_and_send : Handler Notifications
check_and_send msg w =
    let (inbox, processed) = is_processed consumer_name msg.event_id w.inbox in
    unless_processed processed msg (record w { inbox = inbox })

abbrev pub if_decoded : Result NotificationSendEvent → Handler Notifications
if_decoded (err e) msg w = (w, wrapped (codes "failed to unmarshal event: ") e [])
if_decoded (ok event) msg w = check_and_send msg w

module _ (unmarshal : Text → Result NotificationSendEvent) where
  -- `Handle` of `NotificationSMSHandler`.
  unfoldable pub handle_sms : Handler Notifications
  handle_sms msg w = if_decoded (unmarshal msg.body) msg w

  -- `Handle` of `NotificationPushHandler`.
  unfoldable pub handle_push : Handler Notifications
  handle_push msg w = if_decoded (unmarshal msg.body) msg w
