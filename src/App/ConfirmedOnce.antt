-- ===== src/App/ConfirmedOnce.antt =====
-- examples/app/internal/service/order.go over contrib/pgx/repo.go: an order is not confirmed again.
use o4x.Prelude.{
  ℕ, ◌≡◌, refl, sym, ◌∙◌, true, false, ◌≢◌, none, some, List, [], ◌∷◌, Text, codes, any_of,
}
use o4x.Pgx.Calls.{Call}
use o4x.Core.Errors.{Result, ok}
use o4x.Core.Model.{Outbox, OutboxInsertParams}
use o4x.Pgx.Table.{Table, find_row}
use o4x.Pgx.Outbox.{conflicts}
use o4x.Pgx.Insertion.{conflicts-of_key, find_row-at_end}
use o4x.Pgx.Appending.{Appended}
use o4x.Pgx.Steps.{find_row-no_conflict}
use o4x.App.Store.{Tables, AppDatabase}
use o4x.App.Services.{confirmed_key, confirm_order}
use o4x.App.Outcome.{Outcome, answered_ok, no_effect, answer_lost}
use o4x.App.ConfirmOrder.{OrderConfirmed, confirm_order-Outcome}
use o4x.App.Requests.{Request, Marshal, serve, serve_all}
use o4x.App.Footprints.{Keeps}
use o4x.App.Soundness.{IsSound, Footprint-IsSound, serve-Served}

-- The outbox has a message with this event type and key.
pub record HasMessage (event_type key : Text) (t : Table) : Type 0 where
  pub id : Text
  pub row : Outbox
  pub found : find_row id t ≡ some row
  pub typed : row.event_type ≡ event_type
  pub keyed : row.idempotency_key ≡ key

pub Appended-HasMessage :
    {server : ℕ → Call} (params : OutboxInsertParams) (r : Outbox) (t t' : Table)
    → Appended server params r t t'
    → HasMessage params.event_type params.idempotency_key t'
Appended-HasMessage params r t t' a = record {
  id = r.id;
  row = r;
  found = rw a.rows (find_row-at_end t r (find_row-no_conflict r t a.unused));
  typed = a.typed;
  keyed = a.keyed;
}

pub HasMessage-Keeps :
    (event_type key : Text) (t t' : Table)
    → Keeps t t'
    → HasMessage event_type key t
    → HasMessage event_type key t'
HasMessage-Keeps event_type key t t' k m =
    let (q, found, type_same, key_same) = k.kept m.id m.row m.found in
    record {
      id = m.id;
      row = q;
      found = found;
      typed = sym type_same ∙ m.typed;
      keyed = sym key_same ∙ m.keyed;
    }

-- No message is appended with an event type and a key that are there.
pub Appended-taken :
    {server : ℕ → Call} (params : OutboxInsertParams) (r : Outbox) (t t' : Table)
    → Appended server params r t t'
    → HasMessage params.event_type params.idempotency_key t
    → true ≡ false
Appended-taken params r t t' a m =
    let taken : any_of (conflicts r) t ≡ true =
      conflicts-of_key r m.row t m.id m.found (m.typed ∙ sym a.typed) (m.keyed ∙ sym a.keyed) in
    sym taken ∙ a.unused

module _ (marshal : Marshal) where
  abbrev pub WasConfirmed : Text → Tables → Type 0
  WasConfirmed order_id t = HasMessage (codes "order.confirmed") (confirmed_key order_id) t.outbox

  serve_all-WasConfirmed :
      (order_id : Text) (reqs : List Request) (db : AppDatabase)
      → db.transaction ≡ none
      → IsSound db.tables
      → WasConfirmed order_id db.tables
      → WasConfirmed order_id (serve_all marshal reqs db).tables
        × ((serve_all marshal reqs db).transaction ≡ none)
        × IsSound (serve_all marshal reqs db).tables
  unfolding serve_all
  serve_all-WasConfirmed order_id [] db closed s m = (m, closed, s)
  serve_all-WasConfirmed order_id (req ∷ reqs) db closed s m =
      let served = serve-Served marshal req db closed s in
      serve_all-WasConfirmed order_id reqs (serve marshal req db) served.closed
        (Footprint-IsSound db.tables _ served.footprint s)
        (HasMessage-Keeps _ _ _ _ (served.footprint.outbox s.messages) m)

  confirm_order-refused :
      (order_id : Text) (db : AppDatabase)
      → db.transaction ≡ none
      → IsSound db.tables
      → WasConfirmed order_id db.tables
      → ((confirm_order marshal.order_confirmed order_id db).0.tables ≡ db.tables)
        × ((confirm_order marshal.order_confirmed order_id db).1 ≢ ok tt)
  confirm_order-refused order_id db closed s m =
      by (confirm_order marshal.order_confirmed order_id db) (
        confirm_order-Outcome db.schedule marshal.order_confirmed order_id db.tables s.products db
          closed refl refl)
    where
      never :
          (t : Tables)
          → OrderConfirmed db.schedule marshal.order_confirmed order_id db.tables t
          → true ≡ false
      never t p = Appended-taken _ p.message db.tables.outbox t.outbox p.message_row m

      by :
          (x : AppDatabase × Result Unit)
          → Outcome tt db.tables
              (OrderConfirmed db.schedule marshal.order_confirmed order_id db.tables)
              x
          → (x.0.tables ≡ db.tables) × (x.1 ≢ ok tt)
      by (d, r) (c, answered_ok e p) = absurd (cc (never d.tables p))
      by (d, r) (c, no_effect e e' same) = (same, λ k. cc (sym e' ∙ k))
      by (d, r) (c, answer_lost e e' p) = absurd (cc (never d.tables p))

  confirm_order-WasConfirmed :
      (order_id : Text) (db : AppDatabase)
      → db.transaction ≡ none
      → IsSound db.tables
      → (confirm_order marshal.order_confirmed order_id db).1 ≡ ok tt
      → WasConfirmed order_id (confirm_order marshal.order_confirmed order_id db).0.tables
  confirm_order-WasConfirmed order_id db closed s done =
      by (confirm_order marshal.order_confirmed order_id db)
        (confirm_order-Outcome db.schedule marshal.order_confirmed order_id db.tables s.products db
          closed refl refl)
        done
    where
      by :
          (x : AppDatabase × Result Unit)
          → Outcome tt db.tables
              (OrderConfirmed db.schedule marshal.order_confirmed order_id db.tables)
              x
          → x.1 ≡ ok tt
          → WasConfirmed order_id x.0.tables
      by (d, r) (c, answered_ok e p) k =
          Appended-HasMessage _ p.message db.tables.outbox d.tables.outbox p.message_row
      by (d, r) (c, no_effect e e' same) k = absurd (cc (sym e' ∙ k))
      by (d, r) (c, answer_lost e e' p) k = absurd (cc (sym e' ∙ k))

  -- In a sound database without an open transaction: after a `ConfirmOrder` that was answered with nil, and any further requests of
  -- the API and calls of dispatchers that delete nothing, another `ConfirmOrder` of the same order is answered with
  -- an error and changes no table, so that the stock is taken once.
  pub confirmed_once :
      (order_id : Text) (reqs : List Request) (db : AppDatabase)
      → db.transaction ≡ none
      → IsSound db.tables
      → (confirm_order marshal.order_confirmed order_id db).1 ≡ ok tt
      → let later = serve_all marshal reqs (confirm_order marshal.order_confirmed order_id db).0 in
        ((confirm_order marshal.order_confirmed order_id later).0.tables ≡ later.tables)
        × ((confirm_order marshal.order_confirmed order_id later).1 ≢ ok tt)
  unfolding serve
  confirmed_once order_id reqs db closed s done =
      let first = serve-Served marshal (Request.confirming order_id) db closed s in
      let confirmed = confirm_order-WasConfirmed order_id db closed s done in
      let (kept, closed', s') =
        serve_all-WasConfirmed order_id reqs (confirm_order marshal.order_confirmed order_id db).0
          first.closed (Footprint-IsSound db.tables _ first.footprint s) confirmed in
      confirm_order-refused order_id _ closed' s' kept
