-- ===== src/App/Soundness.antt =====
-- examples/app: an invariant of the tables under all requests.
use mathlib.Core.Path.{subst}
use o4x.Prelude.{
  ◌≡◌, refl, sym, ap, ◌∙◌, ◌⊎◌, inl, inr, none, some, List, [], ◌∷◌, Text, text_eq, text_eq_iff,
  first_of?, Bool-cases,
}
use o4x.Pgx.Keys.{UniqueIds}
use o4x.App.Store.{Inventory, Tables, AppDatabase}
use o4x.App.InventoryRepository.{of_product}
use o4x.App.Stock.{UniqueProducts, StockChange}
use o4x.App.StockRules.{IsStocked}
use o4x.App.CreateOrder.{create_order-Outcome}
use o4x.App.ConfirmOrder.{confirm_order-Outcome}
use o4x.App.OtherServices.{send_notification-Outcome, register_user-Outcome, update_user-Outcome}
use o4x.App.Requests.{
  Request, creating, confirming, sending, registering, updating, dispatching, Marshal, dispatch,
  serve, serve_all,
}
use o4x.App.Footprints.{
  Footprint, Served, Outcome-Served, OrderPlaced-Footprint, OrderConfirmed-Footprint,
  Effect-Footprint, dispatch-Footprint,
}

-- One row for each product, of which no more is reserved than there is, and one row for each id of a message.
pub record IsSound (t : Tables) : Type 0 where
  pub products : UniqueProducts t.inventory
  pub stocked :
      (p : Text) (row : Inventory) → first_of? (of_product p) t.inventory ≡ some row → IsStocked row
  pub messages : UniqueIds t.outbox

pub Footprint-IsSound : (t t' : Tables) → Footprint t t' → IsSound t → IsSound t'
Footprint-IsSound t t' f s = record {
  products = products f.stock;
  stocked = λ p row found. stocked f.stock p row found;
  messages = (f.outbox s.messages).unique;
}
  where
    Stock : Type 0
    Stock =
        (t'.inventory ≡ t.inventory)
        ⊎ (UniqueProducts t'.inventory
            × ((p : Text) × StockChange (λ old new. IsStocked new) p t.inventory t'.inventory))

    products : Stock → UniqueProducts t'.inventory
    products (inl e) = rw e s.products
    products (inr (u, c)) = u

    stocked :
        Stock
        → (p : Text) (row : Inventory) → first_of? (of_product p) t'.inventory ≡ some row
        → IsStocked row
    stocked (inl e) p row found = s.stocked p row (ap (first_of? (of_product p)) (sym e) ∙ found)
    stocked (inr (u, (q, c))) p row found = elim (Bool-cases (text_eq q p)) [
      | inl here ↦
          let e : q ≡ p = (text_eq_iff q p).0 here in
          let stored : first_of? (of_product p) t'.inventory ≡ some c.new =
            subst (λ x. first_of? (of_product x) t'.inventory ≡ some c.new) e c.stored in
          let same : row ≡ c.new = cc (found, stored) in rw same c.change
      | inr other ↦ s.stocked p row (sym (c.others p other) ∙ found)
    ]

module _ (marshal : Marshal) where
  pub serve-Served :
      (req : Request) (db : AppDatabase)
      → db.transaction ≡ none
      → IsSound db.tables
      → Served db.tables (serve marshal req db)
  unfolding serve dispatch
  serve-Served (creating drawn req) db closed s =
      Outcome-Served _ _ _ _ (OrderPlaced-Footprint _ _ _ _)
        (create_order-Outcome db.schedule _ drawn req db.tables s.products db closed refl refl)
  serve-Served (confirming order_id) db closed s =
      Outcome-Served _ _ _ _ (OrderConfirmed-Footprint _ _ _ _)
        (confirm_order-Outcome db.schedule _ order_id db.tables s.products db closed refl refl)
  serve-Served (sending drawn req) db closed s =
      Outcome-Served _ _ _ _ (Effect-Footprint _ _ _ (λ now t. refl) _ _ _ _ db.tables)
        (send_notification-Outcome _ drawn req db.schedule db.tables db closed refl refl)
  serve-Served (registering drawn req) db closed s =
      Outcome-Served _ _ _ _ (Effect-Footprint _ _ _ (λ now t. refl) _ _ _ _ db.tables)
        (register_user-Outcome _ drawn req db.schedule db.tables db closed refl refl)
  serve-Served (updating now unix_nano user_id req) db closed s =
      Outcome-Served _ _ _ _ (Effect-Footprint _ _ _ (λ now t. refl) _ _ _ _ db.tables)
        (update_user-Outcome _ now unix_nano user_id req db.schedule db.tables db closed refl refl)
  serve-Served (dispatching op) db closed s = record {
    closed = closed;
    footprint = dispatch-Footprint op db;
  }

  -- When a product has one row, of which no more is reserved than there is, a message has one row, and no
  -- transaction is open, all of this holds after any requests of the API and any calls of dispatchers, in any order,
  -- with any quantities, and whatever calls fail or lose their answers.
  pub serve_all-IsSound :
      (reqs : List Request) (db : AppDatabase)
      → db.transaction ≡ none
      → IsSound db.tables
      → ((serve_all marshal reqs db).transaction ≡ none)
        × IsSound (serve_all marshal reqs db).tables
  unfolding serve_all
  serve_all-IsSound [] db closed s = (closed, s)
  serve_all-IsSound (req ∷ reqs) db closed s =
      let served = serve-Served req db closed s in
      serve_all-IsSound reqs (serve marshal req db) served.closed
        (Footprint-IsSound db.tables _ served.footprint s)
