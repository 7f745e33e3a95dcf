-- ===== src/App/OtherServices.antt =====
-- examples/app/internal/service/notification.go and user.go: `SendNotification`, `RegisterUser` and `UpdateUser`.
use o4x.Prelude.{
  ℕ, ◌≡◌, refl, sym, ap, ◌∙◌, false, ◌||◌, ◌&&◌, none, some, List, [], ◌∷◌, ◌++◌, map, Text, codes,
  any_of, tally, ◌≤◌, arith, if◌then◌else◌,
}
use o4x.Pgx.Calls.{Call}
use o4x.Core.Errors.{Result, ok}
use o4x.App.Store.{
  Notification, User, SendNotificationRequest, CreateUserRequest, UpdateUserRequest, Tables,
  AppDatabase,
}
use o4x.App.Events.{
  Drawn, NotificationCreated, UserRegisteredEvent, UserUpdatedEvent, new_notification, new_user,
  notification_created, user_registered_event, user_updated_event,
}
use o4x.App.Actions.{now_of}
use o4x.App.Actions.Rules.{Leaving, Ensures-annotate, Ensures-bind, Ensures-exec, Ensures-lift}
use o4x.App.Statements.{affected}
use o4x.App.NotificationRepository
use o4x.App.NotificationRepository.{insert_or_nothing, insert_notification}
use o4x.App.UserRepository
use o4x.App.UserRepository.{
  is_user, has_email, with_users, insert_user, with_counted_users, apply_update,
}
use o4x.App.Services.{updated_key, send_notification, register_user, update_user}
use o4x.App.StockRules.{values_fit-ok, ok-injective, if_ok-ok, affected-ok}
use o4x.App.CreateOrder.{insert_unique-ok}
use o4x.App.ConfirmOrder.{update_rows-map}
use o4x.App.Outcome.{Outcome}
use o4x.App.Effects.{Effect, Changed, service-Outcome}

abbrev Anything : Tables → Type 0
Anything t = Unit

module _ (marshal : NotificationCreated → Result Text) (drawn : Drawn)
    (req : SendNotificationRequest) (server : ℕ → Call) (before : Tables) where
  abbrev pub store_notification : Notification → ℕ → Tables → Tables
  store_notification n now t = record t { notifications = insert_or_nothing n t.notifications }

  insert_notification-Changed :
      (n : Notification) (db : AppDatabase) (t t' : Tables) (a : Unit {0})
      → t ≡ before
      → insert_notification n db t ≡ ok (t', a)
      → Changed Anything (store_notification n) before t'
  unfolding insert_notification
  insert_notification-Changed n db t t' a same h =
      let e = ok-injective (store_notification n 0 t, tt) (t', a) (values_fit-ok _ _ (t', a) h) in
      (tt, (0, sym (ap (λ x. x.0) e) ∙ ap (store_notification n 0) same))

  -- Where no transaction is open, `SendNotification` closes its transaction and has one of three ends, whatever its calls
  -- meet: it answers with the new notification, and has appended it and one message for the event; it answers with an
  -- error and has changed nothing; or the answer of its commit is lost, and it has done all of this. It touches
  -- no other table.
  pub send_notification-Outcome :
      (db : AppDatabase)
      → db.transaction ≡ none
      → db.tables ≡ before
      → db.schedule ≡ server
      → Outcome
          (new_notification drawn req)
          before
          (Effect server Anything
            (store_notification (new_notification drawn req))
            (marshal (notification_created (new_notification drawn req)))
            (codes "notification." ++ req.type_name)
            drawn.id
            3
            before)
          (send_notification marshal drawn req db)
  unfolding send_notification NotificationRepository.create
  send_notification-Outcome =
      let n = new_notification drawn req in
      service-Outcome server Anything (store_notification n) (λ now t. refl) _ _ _ 3 before _ _ n
        (Ensures-annotate _ _ (
          Ensures-exec {Q = λ _. Changed Anything (store_notification n) before}
            (insert_notification n) (insert_notification-Changed n)))

abbrev pub store_user : User → ℕ → Tables → Tables
store_user user now t = record t { users = t.users ++ user ∷ [] }

-- Neither the id nor the e-mail address of the user is taken.
abbrev pub NewUser : User → Tables → Type 0
NewUser user t = any_of (λ u. is_user user.id u || has_email user.email u) t.users ≡ false

insert_user-Changed :
    (user : User) (before : Tables) (db : AppDatabase) (t t' : Tables) (a : Unit {0})
    → t ≡ before
    → insert_user user db t ≡ ok (t', a)
    → Changed (NewUser user) (store_user user) before t'
unfolding insert_user
insert_user-Changed user before db t t' a same h =
    let (rows, e, made) = if_ok-ok (with_users t) _ _ (values_fit-ok _ _ (t', a) h) in
    let (unused, appended) = insert_unique-ok _ user t.users rows e in
    (
      rw (sym same) unused,
      (
        0,
        sym (ap (λ x. x.0) made)
            ∙ (ap (λ x. record t { users = x }) appended ∙ ap (store_user user 0) same),
      ),
    )

-- Where no transaction is open, `RegisterUser` closes its transaction and has one of three ends, whatever its calls meet:
-- it answers with the new user, whose id and e-mail address were not taken, and has appended the user and one
-- message for the event; it answers with an error and has changed nothing; or the answer of its commit
-- is lost, and it has done all of this. It touches no other table.
pub register_user-Outcome :
    (marshal : UserRegisteredEvent → Result Text) (drawn : Drawn) (req : CreateUserRequest)
    (server : ℕ → Call) (before : Tables) (db : AppDatabase)
    → db.transaction ≡ none
    → db.tables ≡ before
    → db.schedule ≡ server
    → Outcome
        (new_user drawn req)
        before
        (Effect server
          (NewUser (new_user drawn req))
          (store_user (new_user drawn req))
          (marshal (user_registered_event (new_user drawn req)))
          (codes "user.registered")
          drawn.id
          5
          before)
        (register_user marshal drawn req db)
unfolding register_user UserRepository.create
register_user-Outcome marshal drawn req server before =
    let user = new_user drawn req in
    service-Outcome server (NewUser user) (store_user user) (λ now t. refl) _ _ _ 5 before _ _ user
      (Ensures-annotate _ _ (
        Ensures-exec {Q = λ _. Changed (NewUser user) (store_user user) before} (insert_user user)
          (insert_user-Changed user before)))

abbrev pub change_user : Text → UpdateUserRequest → ℕ → Tables → Tables
change_user user_id req now t = record t {
  users = map (λ u. if is_user user_id u then apply_update req now u else u) t.users;
}

abbrev pub KnownUser : Text → Tables → Type 0
KnownUser user_id t = 1 ≤ tally (is_user user_id) t.users

update_user-Changed :
    (user_id : Text) (req : UpdateUserRequest) (before : Tables) (db : AppDatabase) (t t' : Tables)
    (n : ℕ)
    → t ≡ before
    → UserRepository.update_user_rows user_id req db t ≡ ok (t', n)
    → 1 ≤ n
    → Changed (KnownUser user_id) (change_user user_id req) before t'
unfolding UserRepository.update_user_rows
update_user-Changed user_id req before db t t' n same h least =
    let now = now_of db in
    let ((rows, m), e, made) =
      if_ok-ok (with_counted_users t) _ _
        (values_fit-ok (db.fits (some 255) req.name && db.fits (some 50) req.status) _ (t', n) h) in
    let all : ◌≡◌ {A = List User × ℕ}
        (
          map (λ u. if is_user user_id u then apply_update req now u else u) t.users,
          tally (is_user user_id) t.users,
        )
        (rows, m) =
      cc (update_rows-map (is_user user_id) (apply_update req now) t.users, e) in
    (
      rw (sym same) (omega (arith, ap (λ x. x.1) all, ap (λ x. x.1) made, least)),
      (
        now,
        sym (ap (λ x. x.0) made)
            ∙ (ap (λ x. record t { users = x }) (sym (ap (λ x. x.0) all))
                ∙ ap (change_user user_id req now) same),
      ),
    )

-- Where no transaction is open, `UpdateUser` closes its transaction and has one of three ends, whatever its calls meet:
-- it answers with nil, and has changed the user, who is known, and appended one message for the event; it answers with an
-- error and has changed nothing; or the answer of its commit is lost, and it has done all of this. It touches no
-- other table.
pub update_user-Outcome :
    (marshal : UserUpdatedEvent → Result Text) (now unix_nano : ℕ) (user_id : Text)
    (req : UpdateUserRequest) (server : ℕ → Call) (before : Tables) (db : AppDatabase)
    → db.transaction ≡ none
    → db.tables ≡ before
    → db.schedule ≡ server
    → Outcome tt before
        (Effect server
          (KnownUser user_id)
          (change_user user_id req)
          (marshal (user_updated_event user_id req now))
          (codes "user.updated")
          (updated_key user_id unix_nano)
          5
          before)
        (update_user marshal now unix_nano user_id req db)
unfolding update_user UserRepository.update
update_user-Outcome marshal now unix_nano user_id req server before =
    let P = Changed (KnownUser user_id) (change_user user_id req) before in
    service-Outcome server (KnownUser user_id) (change_user user_id req) (λ now t. refl) _ _ _ 5
      before _ _ tt
      (Ensures-bind _ _
        (Ensures-annotate _ _ (
          Ensures-exec {Q = λ n t. 1 ≤ n → P t} (UserRepository.update_user_rows user_id req)
            (update_user-Changed user_id req before)))
        (λ n.
          Ensures-lift (affected _ n)
            (λ a db h p. record { opened = p.opened; seen = p.seen (affected-ok _ n a h) })
            (λ db p. Leaving.unfinished (record { opened = p.opened; seen = tt }))))
