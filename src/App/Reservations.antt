-- ===== src/App/Reservations.antt =====
-- examples/app: under all requests, the reservations of a product are what its pending orders hold.
use o4x.Prelude.{◌≡◌, refl, ap, none, List, [], ◌∷◌, All}
use o4x.Core.Errors.{Result}
use o4x.App.Store.{Tables, AppDatabase}
use o4x.App.Events.{new_order}
use o4x.App.Services.{create_order, confirm_order, send_notification, register_user, update_user}
use o4x.App.Outcome.{Outcome, answered_ok, no_effect, answer_lost}
use o4x.App.CreateOrder.{create_order-Outcome}
use o4x.App.ConfirmOrder.{confirm_order-Outcome}
use o4x.App.OtherServices.{send_notification-Outcome, register_user-Outcome, update_user-Outcome}
use o4x.App.Requests.{
  Request, creating, confirming, sending, registering, updating, dispatching, Marshal, dispatch,
  serve, serve_all,
}
use o4x.App.Footprints.{Keeps}
use o4x.App.Soundness.{IsSound, Footprint-IsSound, serve-Served}
use o4x.App.Balance.{IsPositive, IsBalanced, placed-IsBalanced}
use o4x.App.BalanceConfirmed.{confirmed-IsBalanced, IsBalanced-same}

-- A request for an order asks for a quantity that is not negative.
abbrev pub IsProper : Request → Type 0
IsProper (creating drawn req) = IsPositive req.quantity
IsProper _ = Unit

Ended-IsBalanced :
    {A : Type 0} (answer : A) (t : Tables) (F : Tables → Type 0) (x : AppDatabase × Result A)
    → IsBalanced t
    → (F x.0.tables → IsBalanced x.0.tables)
    → Outcome answer t F x
    → IsBalanced x.0.tables
Ended-IsBalanced answer t F (db, r) b f (closed, answered_ok e h) = f h
Ended-IsBalanced answer t F (db, r) b f (closed, no_effect e e' h) = rw h b
Ended-IsBalanced answer t F (db, r) b f (closed, answer_lost e e' h) = f h

module _ (marshal : Marshal) where
  serve-IsBalanced :
      (req : Request) (db : AppDatabase)
      → IsProper req
      → db.transaction ≡ none
      → IsSound db.tables
      → IsBalanced db.tables
      → Keeps db.tables.outbox (serve marshal req db).tables.outbox
      → IsBalanced (serve marshal req db).tables
  unfolding serve dispatch
  serve-IsBalanced (creating drawn req) db proper closed s b keeps =
      Ended-IsBalanced _ db.tables _ (create_order marshal.order_created drawn req db) b
        (λ p. placed-IsBalanced _ (new_order drawn req) db.tables _ b refl proper p keeps)
        (create_order-Outcome db.schedule _ drawn req db.tables s.products db closed refl refl)
  serve-IsBalanced (confirming order_id) db proper closed s b keeps =
      Ended-IsBalanced _ db.tables _ (confirm_order marshal.order_confirmed order_id db) b
        (λ p. confirmed-IsBalanced _ order_id db.tables _ b p keeps)
        (confirm_order-Outcome db.schedule _ order_id db.tables s.products db closed refl refl)
  serve-IsBalanced (sending drawn req) db proper closed s b keeps =
      Ended-IsBalanced _ db.tables _ (send_notification marshal.notification drawn req db) b
        (λ p.
          IsBalanced-same db.tables _ (ap (λ x. x.orders) p.rest) (ap (λ x. x.inventory) p.rest)
            keeps b)
        (send_notification-Outcome _ drawn req db.schedule db.tables db closed refl refl)
  serve-IsBalanced (registering drawn req) db proper closed s b keeps =
      Ended-IsBalanced _ db.tables _ (register_user marshal.user_registered drawn req db) b
        (λ p.
          IsBalanced-same db.tables _ (ap (λ x. x.orders) p.rest) (ap (λ x. x.inventory) p.rest)
            keeps b)
        (register_user-Outcome _ drawn req db.schedule db.tables db closed refl refl)
  serve-IsBalanced (updating now unix_nano user_id req) db proper closed s b keeps =
      Ended-IsBalanced _ db.tables _ (update_user marshal.user_updated now unix_nano user_id req db)
        b
        (λ p.
          IsBalanced-same db.tables _ (ap (λ x. x.orders) p.rest) (ap (λ x. x.inventory) p.rest)
            keeps b)
        (update_user-Outcome _ now unix_nano user_id req db.schedule db.tables db closed refl refl)
  serve-IsBalanced (dispatching op) db proper closed s b keeps =
      IsBalanced-same db.tables _ refl refl keeps b

  -- Whenever the reservations of each product are what its pending orders hold, orders have unique ids and quantities that are
  -- not negative, orders that are not pending have a message of their confirmation, the tables are sound
  -- and no transaction is open, then all of this still holds after any requests of the API that order no negative quantity and
  -- any calls of dispatchers that delete nothing, in any order, whatever calls fail or lose their answers.
  pub serve_all-IsBalanced :
      (reqs : List Request) (db : AppDatabase)
      → All IsProper reqs
      → db.transaction ≡ none
      → IsSound db.tables
      → IsBalanced db.tables
      → ((serve_all marshal reqs db).transaction ≡ none)
        × IsSound (serve_all marshal reqs db).tables
        × IsBalanced (serve_all marshal reqs db).tables
  unfolding serve_all
  serve_all-IsBalanced [] db proper closed s b = (closed, s, b)
  serve_all-IsBalanced (req ∷ reqs) db proper closed s b =
      let served = serve-Served marshal req db closed s in
      serve_all-IsBalanced reqs (serve marshal req db) proper.1 served.closed
        (Footprint-IsSound db.tables _ served.footprint s)
        (serve-IsBalanced req db proper.0 closed s b (served.footprint.outbox s.messages))
