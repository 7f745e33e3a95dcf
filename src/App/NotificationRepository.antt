-- ===== src/App/NotificationRepository.antt =====
-- examples/app/internal/repository/notification.go: the table `notifications`.
use o4x.Prelude.{
  ℕ, Bool, ◌&&◌, none, some, List, [], ◌∷◌, ◌++◌, Text, codes, text_eq, any_of, first_of?,
  if◌then◌else◌,
}
use o4x.Core.Errors.{GoError, external, Result, ok}
use o4x.App.Store.{Notification, Tables, AppDatabase}
use o4x.App.Actions.{Action, lift, ◌>>=◌, annotate, exec, query_pool, now_of}
use o4x.App.Statements.{update_rows, scan_row, affected, if_ok, values_fit}

abbrev pub is_notification : Text → Notification → Bool
is_notification j n = text_eq n.id j

-- `ON CONFLICT (id) DO NOTHING`
abbrev pub insert_or_nothing : Notification → List Notification → List Notification
insert_or_nothing n rows = if any_of (is_notification n.id) rows then rows else rows ++ n ∷ []

unfoldable pub insert_notification :
    Notification → AppDatabase → Tables → Result (Tables × Unit {0})
insert_notification n db t =
    values_fit
      (db.fits (some 50) n.type_name
        && (db.fits (some 255) n.recipient
            && (db.fits none n.subject && (db.fits none n.body && db.fits (some 50) n.status))))
      (ok (record t { notifications = insert_or_nothing n t.notifications }, tt))

unfoldable pub create : Notification → Action Unit
create n = annotate (codes "failed to create notification: ") (exec (insert_notification n))

abbrev pub with_counted_notifications : Tables → List Notification × ℕ → Tables × ℕ
with_counted_notifications t (rows, n) = (record t { notifications = rows }, n)

abbrev pub set_status : Text → ℕ → Notification → Notification
set_status status now n = record n { status = status; updated_at = now }

unfoldable pub update_notification : Text → Text → AppDatabase → Tables → Result (Tables × ℕ)
update_notification j status db t = values_fit (db.fits (some 50) status) (
    if_ok (with_counted_notifications t)
      (update_rows (is_notification j) (λ n. ok (set_status status (now_of db) n)) t.notifications))

abbrev pub notification_not_found : Text → GoError
notification_not_found j = external (codes "notification not found: " ++ j)

unfoldable pub update_status : Text → Text → Action Unit
update_status j status = do
  n ←
      annotate (codes "failed to update notification status: ")
        (exec (update_notification j status))
  lift (affected (notification_not_found j) n)

-- `UpdateStatusWithPool`, which is called where no transaction is open.
unfoldable pub update_status_with_pool : Text → Text → Action Unit
update_status_with_pool j status = do
  n ←
      annotate (codes "failed to update notification status: ")
        (exec (update_notification j status))
  lift (affected (notification_not_found j) n)

unfoldable pub get_by_id : Text → Action Notification
get_by_id j =
    annotate (codes "failed to get notification: ")
      (query_pool λ t. scan_row (first_of? (is_notification j) t.notifications))
