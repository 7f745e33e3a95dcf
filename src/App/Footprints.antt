-- ===== src/App/Footprints.antt =====
-- examples/app: what the services and the dispatchers leave in the outbox and in the stock.
use o4x.Prelude.{ℕ, ◌≡◌, refl, ap, ◌∙◌, ◌⊎◌, inl, inr, none, some, List, [], ◌∷◌, Text}
use o4x.Pgx.Calls.{Call}
use o4x.Core.Errors.{Result}
use o4x.Core.Model.{Outbox, OutboxInsertParams}
use o4x.Pgx.Lookup.{find_row-append}
use o4x.Pgx.Table.{Table, find_row}
use o4x.Pgx.Keys.{UniqueIds, UniqueIds-append}
use o4x.Pgx.Operations.{Operation}
use o4x.Pgx.Steps.{perform-Progress, find_row-no_conflict}
use o4x.Pgx.Runs.{Follows-same}
use o4x.Pgx.Appending.{Appended}
use o4x.App.Store.{Inventory, Tables, AppDatabase}
use o4x.App.Actions.{outbox_of}
use o4x.App.Stock.{UniqueProducts, StockChange}
use o4x.App.StockRules.{IsStocked}
use o4x.App.Outcome.{Ended, Outcome, answered_ok, no_effect, answer_lost}
use o4x.App.CreateOrder.{OrderPlaced}
use o4x.App.ConfirmOrder.{OrderConfirmed}
use o4x.App.Effects.{Effect}
use o4x.App.Requests.{dispatch}

-- No message is lost or changes its event type or its key.
pub record Keeps (t t' : Table) : Type 0 where
  pub unique : UniqueIds t'
  pub kept :
      (j : Text) (r : Outbox)
      → find_row j t ≡ some r
      → (q : Outbox) × (find_row j t' ≡ some q)
        × (r.event_type ≡ q.event_type)
        × (r.idempotency_key ≡ q.idempotency_key)

-- What a request leaves in the outbox and in the stock.
pub record Footprint (t t' : Tables) : Type 0 where
  pub outbox : UniqueIds t.outbox → Keeps t.outbox t'.outbox
  pub stock :
      (t'.inventory ≡ t.inventory)
      ⊎ (UniqueProducts t'.inventory
          × ((p : Text) × StockChange (λ old new. IsStocked new) p t.inventory t'.inventory))

Keeps-same : (t t' : Table) → t' ≡ t → UniqueIds t → Keeps t t'
Keeps-same t t' e u = rw e (record { unique = u; kept = λ j r found. (r, found, refl, refl) })

Appended-Keeps :
    {server : ℕ → Call} (params : OutboxInsertParams) (r : Outbox) (t t' : Table)
    → Appended server params r t t'
    → UniqueIds t
    → Keeps t t'
Appended-Keeps params r t t' a u = rw a.rows (record {
  unique = UniqueIds-append t r u (find_row-no_conflict r t a.unused);
  kept = λ j q found. (q, find_row-append j t (r ∷ []) q found, refl, refl);
})

Footprint-same : (t t' : Tables) → t' ≡ t → Footprint t t'
Footprint-same t t' e = record {
  outbox = Keeps-same t.outbox t'.outbox (ap (λ x. x.outbox) e);
  stock = inl (ap (λ x. x.inventory) e);
}

pub StockChange-map :
    (C D : Inventory → Inventory → Type 0) (p : Text) (rows rows' : List Inventory)
    → ((old new : Inventory) → C old new → D old new)
    → StockChange C p rows rows'
    → StockChange D p rows rows'
StockChange-map C D p rows rows' f c = record {
  others = c.others;
  old = c.old;
  new = c.new;
  found = c.found;
  stored = c.stored;
  change = f c.old c.new c.change;
}

module _ {A : Type 0} {answer : A} {before : Tables} {F : Tables → Type 0} where
  Ended-Footprint :
      (after : Tables) (r : Result A)
      → ((t : Tables) → F t → Footprint before t)
      → Ended answer before after F r
      → Footprint before after
  Ended-Footprint after r f (answered_ok e h) = f after h
  Ended-Footprint after r f (no_effect e e' h) = Footprint-same before after h
  Ended-Footprint after r f (answer_lost e e' h) = f after h

-- No transaction is open after a service.
pub record Served (t : Tables) (db : AppDatabase) : Type 0 where
  pub closed : db.transaction ≡ none
  pub footprint : Footprint t db.tables

pub Outcome-Served :
    {A : Type 0} (answer : A) (before : Tables) (F : Tables → Type 0) (x : AppDatabase × Result A)
    → ((t : Tables) → F t → Footprint before t)
    → Outcome answer before F x
    → Served before x.0
Outcome-Served answer before F (db, r) f (closed, ended) = record {
  closed = closed;
  footprint = Ended-Footprint db.tables r f ended;
}

pub OrderPlaced-Footprint :
    (server : ℕ → Call) (marshal : _) (order : _) (t t' : Tables)
    → OrderPlaced server marshal order t t'
    → Footprint t t'
OrderPlaced-Footprint server marshal order t t' p = record {
  outbox = Appended-Keeps _ p.message t.outbox t'.outbox p.message_row;
  stock =
      inr (p.products, (order.product_id, StockChange-map _ _ _ _ _ (λ old new c. c.1.2) p.stock));
}

pub OrderConfirmed-Footprint :
    (server : ℕ → Call) (marshal : _) (order_id : Text) (t t' : Tables)
    → OrderConfirmed server marshal order_id t t'
    → Footprint t t'
OrderConfirmed-Footprint server marshal order_id t t' p = record {
  outbox = Appended-Keeps _ p.message t.outbox t'.outbox p.message_row;
  stock =
      inr
        (p.products, (p.order.product_id, StockChange-map _ _ _ _ _ (λ old new c. c.1.2) p.stock));
}

pub Effect-Footprint :
    (server : ℕ → Call) (allowed : Tables → Type 0) (change : ℕ → Tables → Tables)
    → ((now : ℕ) (t : Tables) → (change now t).inventory ≡ t.inventory)
    → (marshalled : Result Text) (event_type key : Text) (most : ℕ) (t t' : Tables)
    → Effect server allowed change marshalled event_type key most t t'
    → Footprint t t'
Effect-Footprint server allowed change other marshalled event_type key most t t' p = record {
  outbox = Appended-Keeps _ p.message t.outbox t'.outbox p.message_row;
  stock = inl (ap (λ x. x.inventory) p.rest ∙ other p.now t);
}

-- A call of a dispatcher leaves everything but the outbox.
pub dispatch-Footprint :
    (op : Operation) (db : AppDatabase) → Footprint db.tables (dispatch op db).tables
unfolding dispatch
dispatch-Footprint op db = record {
  outbox = λ u.
      let (unique, follows) = perform-Progress op (outbox_of db) u in
      record {
        unique = unique;
        kept = λ j r there.
            let (q, found, step) = follows j r there in
            let same = Follows-same step in (q, found, same.same_event_type, same.same_key);
      };
  stock = inl refl;
}
