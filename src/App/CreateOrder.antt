-- ===== src/App/CreateOrder.antt =====
-- examples/app/internal/service/order.go: `CreateOrder`.
use o4x.Prelude.{
  ℕ, ◌≡◌, refl, sym, ap, ◌∙◌, Bool, true, false, none, List, [], ◌∷◌, ◌++◌, Text, codes, any_of,
  if◌then◌else◌,
}
use o4x.Pgx.Calls.{Call}
use o4x.Core.Errors.{Result, ok, err}
use o4x.Core.Model.{Outbox}
use o4x.Pgx.Appending.{Appended}
use o4x.App.Store.{Order, CreateOrderRequest, Tables, AppDatabase}
use o4x.App.Events.{Drawn, OrderCreatedEvent, new_order, order_created_event}
use o4x.App.Actions.Rules.{
  Ensures, InTransaction, Leaving, Ensures-annotate, Ensures-bind, Ensures-exec,
}
use o4x.App.Statements.{insert_unique, duplicate_key}
use o4x.App.OrderRepository.{is_order, with_orders, insert_order, create}
use o4x.App.Services.{message_params, create_order}
use o4x.App.Publishing.{Published, Ensures-publish_and_commit}
use o4x.App.Stock.{UniqueProducts, StockChange}
use o4x.App.StockRules.{Restocked, Reserves, Ensures-reserve, values_fit-ok, if_ok-ok}
use o4x.App.Outcome.{Outcome, in_transaction-Outcome}

pub insert_unique-ok :
    {A : Type 0} (p : A → Bool) (x : A) (xs ys : List A)
    → insert_unique p x xs ≡ ok ys
    → (any_of p xs ≡ false) × (ys ≡ xs ++ x ∷ [])
unfolding insert_unique
insert_unique-ok {A} p x xs ys h = by (any_of p xs) refl h
  where
    by :
        (b : Bool)
        → any_of p xs ≡ b
        → ◌≡◌ {A = Result (List A)} (if b then err duplicate_key else ok (xs ++ x ∷ [])) (ok ys)
        → (any_of p xs ≡ false) × (ys ≡ xs ++ x ∷ [])
    by true e k = absurd (cc)
    by false e k = (e, sym (cc k))

-- Tables with `P`, and one new order.
pub record Ordered (P : Tables → Type 0) (order : Order) (t : Tables) : Type 0 where
  pub earlier : Tables
  pub prior : P earlier
  pub unused : any_of (is_order order.id) earlier.orders ≡ false
  pub rest : t ≡ record earlier { orders = earlier.orders ++ order ∷ [] }

module _ {server : ℕ → Call} {before : Tables} {P F : Tables → Type 0} (order : Order) where
  Ensures-create :
      Ensures
        (InTransaction server before P)
        (create order)
        (λ _. InTransaction server before (Ordered P order))
        (Leaving server before F)
  unfolding create insert_order
  Ensures-create = Ensures-annotate _ _ (
      Ensures-exec (insert_order order) (λ db t t' a prior h.
        let (rows, e, same) = if_ok-ok (with_orders t) _ _ (values_fit-ok _ _ (t', a) h) in
        let (unused, appended) = insert_unique-ok _ order t.orders rows e in
        record {
          earlier = t;
          prior = prior;
          unused = unused;
          rest = sym (ap (λ x. x.0) same) ∙ ap (λ x. record t { orders = x }) appended;
        }))

-- What `CreateOrder` does to the tables, all at once.
pub record OrderPlaced (server : ℕ → Call) (marshal : OrderCreatedEvent → Result Text)
    (order : Order) (t t' : Tables) : Type 0 where
  pub unused : any_of (is_order order.id) t.orders ≡ false
  pub order_row : t'.orders ≡ t.orders ++ order ∷ []
  pub stock : StockChange (Reserves order.quantity) order.product_id t.inventory t'.inventory
  pub products : UniqueProducts t'.inventory
  pub payload : Text
  pub bytes : marshal (order_created_event order) ≡ ok payload
  pub message : Outbox
  pub message_row :
      Appended server
        (message_params (codes "order.created") payload order.id 5)
        message
        t.outbox
        t'.outbox
  pub others : t' ≡ record t { orders = t'.orders; inventory = t'.inventory; outbox = t'.outbox }

module _ (server : ℕ → Call) (marshal : OrderCreatedEvent → Result Text) (drawn : Drawn)
    (req : CreateOrderRequest) (before : Tables) where
  order : Order
  order = new_order drawn req

  Reserved : Tables → Type 0
  Reserved = Restocked (λ t. t ≡ before) (Reserves req.quantity) req.product_id

  Done : Tables → Type 0
  unfolding order Reserved
  Done =
      Published server (Ordered Reserved order) (marshal (order_created_event order))
        (codes "order.created") order.id 5

  Done-OrderPlaced :
      (t : Tables) → Done t → OrderPlaced server marshal (new_order drawn req) before t
  unfolding Done order Reserved
  Done-OrderPlaced t d =
      let o = d.inserted.prior in
      let s = o.prior in
      let same_orders : o.earlier.orders ≡ before.orders =
        ap (λ x. x.orders) s.rest ∙ ap (λ x. x.orders) s.prior in
      let same_outbox : d.inserted.earlier.outbox ≡ before.outbox =
        ap (λ x. x.outbox) o.rest ∙ (ap (λ x. x.outbox) s.rest ∙ ap (λ x. x.outbox) s.prior) in
      let same_inventory : t.inventory ≡ o.earlier.inventory =
        ap (λ x. x.inventory) d.inserted.rest ∙ ap (λ x. x.inventory) o.rest in
      let beside = λ (x : Tables). record x {
        orders = t.orders;
        inventory = t.inventory;
        outbox = t.outbox;
      } in
      record {
        unused = rw (sym same_orders) o.unused;
        order_row =
            ap (λ x. x.orders) d.inserted.rest
            ∙ (ap (λ x. x.orders) o.rest ∙ ap (λ x. x ++ order ∷ []) same_orders);
        stock = rw (same_inventory, sym (ap (λ x. x.inventory) s.prior)) s.change;
        products = rw same_inventory s.unique;
        payload = d.payload;
        bytes = d.bytes;
        message = d.inserted.message;
        message_row = rw (sym same_outbox) d.inserted.row;
        others =
            ap beside d.inserted.rest ∙ (ap beside o.rest ∙ (ap beside s.rest ∙ ap beside s.prior));
      }

  pub create_order-Outcome :
      UniqueProducts before.inventory
      → (db : AppDatabase) → db.transaction ≡ none
      → db.tables ≡ before
      → db.schedule ≡ server
      → Outcome
          (new_order drawn req)
          before
          (OrderPlaced server marshal (new_order drawn req) before)
          (create_order marshal drawn req db)
  unfolding create_order order Reserved Done
  create_order-Outcome unique = in_transaction-Outcome server _ before Done _ Done-OrderPlaced _ (
      Ensures-bind _ _
        (Ensures-annotate _ _ (Ensures-reserve (λ t e. rw e unique) req.product_id req.quantity))
        (λ _.
          Ensures-bind _ _ (Ensures-annotate _ _ (Ensures-create order))
            (λ _. Ensures-publish_and_commit _ _ _ 5 order)))
