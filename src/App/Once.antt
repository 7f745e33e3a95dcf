-- ===== src/App/Once.antt =====
-- examples/app/internal/consumer/notification_handler.go over contrib/pgx/inbox_repo.go: a notification is not sent again.
use o4x.Prelude.{
  ℕ, ◌≡◌, refl, sym, ap, ◌∙◌, inl, inr, Bool, true, false, List, [], ◌∷◌, ◌++◌, Text, text_eq,
  text_eq_iff, any_of, tally, Bool-cases, arith,
}
use o4x.Core.Errors.{
  GoError, nil, sentinel, external, custom, wrapped, permanent, transient, publish_error, Result,
  ok, err,
}
use o4x.Pgx.Inbox.{same_event, is_processed}
use o4x.Consumer.Message.{SqsMessage}
use o4x.App.InboxAnswers.{
  any_of-complete, is_processed-inbox, Told, is_processed-Told, complete_known,
}
use o4x.App.Notifications.{
  NotificationSendEvent, Notifications, consumer_name, in_step, send_and_complete, unless_processed,
  check_and_send, if_decoded, handle_sms,
}

-- The event is in the inbox.
abbrev pub is_known : Text → Notifications → Bool
is_known e w = any_of (same_event consumer_name e) w.inbox.inbox

-- How often a notification was sent for the event.
abbrev pub times_sent : Text → Notifications → ℕ
times_sent e w = tally (λ m. text_eq m.event_id e) w.sent

-- Any further deliveries, newest first.
unfoldable pub handle_all :
    (Text → Result NotificationSendEvent) → List SqsMessage → Notifications → Notifications
handle_all unmarshal [] w = w
handle_all unmarshal (msg ∷ msgs) w = (handle_sms unmarshal msg (handle_all unmarshal msgs w)).0

tally-append_other :
    {A : Type 0} (p : A → Bool) (xs : List A) (x : A)
    → p x ≡ false
    → tally p (xs ++ x ∷ []) ≡ tally p xs
tally-append_other p [] x h = rw h refl
tally-append_other p (y ∷ xs) x h = ground (arith, tally-append_other p xs x h)

in_step-nil : (step : Text) (e : GoError) → in_step step e ≡ nil → e ≡ nil
in_step-nil step nil h = refl
in_step-nil step (sentinel s) h = absurd (cc)
in_step-nil step (external m) h = absurd (cc)
in_step-nil step (custom b m) h = absurd (cc)
in_step-nil step (wrapped m c n) h = absurd (cc)
in_step-nil step (permanent c) h = absurd (cc)
in_step-nil step (transient c) h = absurd (cc)
in_step-nil step (publish_error i m c) h = absurd (cc)

abbrev Again : Text → Notifications → Notifications → Type 0
Again e w w' = (is_known e w' ≡ true) × (times_sent e w' ≡ times_sent e w)

module _ (msg : SqsMessage) (w : Notifications) where
  send_known :
      (send_and_complete msg w).1 ≡ nil → is_known msg.event_id (send_and_complete msg w).0 ≡ true
  unfolding send_and_complete
  send_known h = complete_known msg.event_id w.inbox (in_step-nil _ _ h)

  send_other :
      (e : Text)
      → text_eq msg.event_id e ≡ false
      → is_known e w ≡ true
      → Again e w (send_and_complete msg w).0
  unfolding send_and_complete
  send_other e other known = (
    any_of-complete (same_event consumer_name e) msg.event_id w.inbox known,
    tally-append_other _ w.sent msg other,
  )

checked : SqsMessage → Notifications → Notifications
checked msg w = record w { inbox = (is_processed consumer_name msg.event_id w.inbox).0 }

checked_known :
    (msg : SqsMessage) (w : Notifications) (e : Text) → is_known e (checked msg w) ≡ is_known e w
unfolding checked
checked_known msg w e =
    ap (any_of (same_event consumer_name e)) (is_processed-inbox msg.event_id w.inbox)

check_known :
    (msg : SqsMessage) (w : Notifications)
    → (check_and_send msg w).1 ≡ nil
    → is_known msg.event_id (check_and_send msg w).0 ≡ true
unfolding check_and_send checked
check_known msg w h =
    by (is_processed consumer_name msg.event_id w.inbox).1 (is_processed-Told msg.event_id w.inbox)
      h
  where
    by :
        (r : Result Bool)
        → Told (is_known msg.event_id w) r
        → (unless_processed r msg (checked msg w)).1 ≡ nil
        → is_known msg.event_id (unless_processed r msg (checked msg w)).0 ≡ true
    by (err x) told h = absurd (cc)
    by (ok false) told h = send_known msg (checked msg w) h
    by (ok true) (Told.failure x e) h = absurd (cc)
    by (ok true) (Told.truth e) h =
        let e' : is_known msg.event_id w ≡ true = cc e in checked_known msg w msg.event_id ∙ e'

check-Again :
    (msg : SqsMessage) (w : Notifications) (e : Text)
    → is_known e w ≡ true
    → Again e w (check_and_send msg w).0
unfolding check_and_send checked
check-Again msg w e known =
    by (is_processed consumer_name msg.event_id w.inbox).1 (is_processed-Told msg.event_id w.inbox)
  where
    still : is_known e (checked msg w) ≡ true
    still = checked_known msg w e ∙ known

    by :
        (r : Result Bool)
        → Told (is_known msg.event_id w) r
        → Again e w (unless_processed r msg (checked msg w)).0
    by (err x) told = (still, refl)
    by (ok true) told = (still, refl)
    by (ok false) (Told.failure x f) = absurd (cc)
    by (ok false) (Told.truth f) = elim (Bool-cases (text_eq msg.event_id e)) [
      | inr other ↦ send_other msg (checked msg w) e other still
      | inl same ↦
          let unknown : is_known msg.event_id w ≡ false = cc f in
          absurd (
            cc (
              sym unknown ∙ (ap (λ i. is_known i w) ((text_eq_iff msg.event_id e).0 same) ∙ known)))
    ]

module _ (unmarshal : Text → Result NotificationSendEvent) where
  handle_known :
      (msg : SqsMessage) (w : Notifications)
      → (handle_sms unmarshal msg w).1 ≡ nil
      → is_known msg.event_id (handle_sms unmarshal msg w).0 ≡ true
  unfolding handle_sms
  handle_known msg w h = by (unmarshal msg.body) h
    where
      by :
          (r : Result NotificationSendEvent)
          → (if_decoded r msg w).1 ≡ nil
          → is_known msg.event_id (if_decoded r msg w).0 ≡ true
      by (err x) h = absurd (cc)
      by (ok event) h = check_known msg w h

  handle-Again :
      (msg : SqsMessage) (w : Notifications) (e : Text)
      → is_known e w ≡ true
      → Again e w (handle_sms unmarshal msg w).0
  unfolding handle_sms
  handle-Again msg w e known = by (unmarshal msg.body)
    where
      by : (r : Result NotificationSendEvent) → Again e w (if_decoded r msg w).0
      by (err x) = (known, refl)
      by (ok event) = check-Again msg w e known

  handle_all-Again :
      (msgs : List SqsMessage) (w : Notifications) (e : Text)
      → is_known e w ≡ true
      → Again e w (handle_all unmarshal msgs w)
  unfolding handle_all
  handle_all-Again [] w e known = (known, refl)
  handle_all-Again (msg ∷ msgs) w e known =
      let (known', same) = handle_all-Again msgs w e known in
      let (known'', same') = handle-Again msg (handle_all unmarshal msgs w) e known' in
      (known'', same' ∙ same)

  -- After a delivery that the handler answered with nil, no further delivery of any messages sends a notification for
  -- the same event, under whatever message id it comes, and whatever calls of the inbox fail, as long as the
  -- inbox is not cleaned up.
  pub sent_once :
      (msg : SqsMessage) (msgs : List SqsMessage) (w : Notifications)
      → (handle_sms unmarshal msg w).1 ≡ nil
      → times_sent msg.event_id (handle_all unmarshal msgs (handle_sms unmarshal msg w).0)
        ≡ times_sent msg.event_id (handle_sms unmarshal msg w).0
  sent_once msg msgs w h =
      (handle_all-Again msgs (handle_sms unmarshal msg w).0 msg.event_id (handle_known msg w h)).1
