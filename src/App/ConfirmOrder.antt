-- ===== src/App/ConfirmOrder.antt =====
-- examples/app/internal/service/order.go: `ConfirmOrder`.
use o4x.Prelude.{
  ℕ, ◌≡◌, refl, sym, ap, ◌∙◌, inl, inr, Bool, Option, none, some, List, [], ◌∷◌, map, Text, codes,
  first_of?, tally, Bool-cases, if◌then◌else◌,
}
use o4x.Pgx.Calls.{Call}
use o4x.Core.Errors.{Result, ok}
use o4x.Core.Model.{Outbox}
use o4x.Pgx.Appending.{Appended}
use o4x.App.Store.{Order, Tables, AppDatabase, order_status_confirmed}
use o4x.App.Events.{OrderConfirmedEvent, order_confirmed_event}
use o4x.App.Actions.{now_of}
use o4x.App.Actions.Rules.{
  Ensures, InTransaction, Leaving, Ensures-annotate, Ensures-bind, Ensures-exec, Ensures-lift,
  Ensures-query_pool, Ensures-weaken,
}
use o4x.App.Statements.{update_rows, affected, scan_row}
use o4x.App.OrderRepository.{
  is_order, with_counted_orders, set_status, update_order, update_status, get_by_id,
}
use o4x.App.Services.{message_params, confirmed_key, confirm_order}
use o4x.App.Publishing.{Published, Ensures-publish_and_commit}
use o4x.App.Stock.{UniqueProducts, StockChange}
use o4x.App.StockRules.{Restocked, Decreases, Ensures-decrease, values_fit-ok, if_ok-ok}
use o4x.App.Outcome.{Outcome, in_transaction-Outcome}

pub update_rows-map :
    {A : Type 0} (p : A → Bool) (f : A → A) (xs : List A)
    → update_rows p (λ x. ok (f x)) xs ≡ ok (map (λ x. if p x then f x else x) xs, tally p xs)
unfolding update_rows
update_rows-map p f [] = refl
update_rows-map p f (x ∷ xs) = elim (Bool-cases (p x)) [
  | inl h ↦ rw (h, update_rows-map p f xs) refl
  | inr h ↦ rw (h, update_rows-map p f xs) refl
]

scan_row-ok : {A : Type 0} (o : Option A) (a : A) → scan_row o ≡ ok a → o ≡ some a
scan_row-ok none a h = absurd (cc)
scan_row-ok (some b) a h = cc

-- The orders after the status of one has been set.
abbrev pub with_status : Text → Text → ℕ → List Order → List Order
with_status order_id status now orders =
    map (λ o. if is_order order_id o then set_status status now o else o) orders

-- Tables with `P`, but for the status of one order.
pub record Marked (P : Tables → Type 0) (order_id status : Text) (t : Tables) : Type 0 where
  pub earlier : Tables
  pub prior : P earlier
  pub now : ℕ
  pub rest : t ≡ record earlier { orders = with_status order_id status now earlier.orders }

-- The order that was read, in the tables before the transaction.
abbrev pub Read : Text → Tables → Order → Tables → Type 0
Read order_id before order t =
    (first_of? (is_order order_id) before.orders ≡ some order) × (t ≡ before)

update_order-Marked :
    (order_id status : Text) (P : Tables → Type 0) (db : AppDatabase) (t t' : Tables) (n : ℕ)
    → P t
    → update_order order_id status db t ≡ ok (t', n)
    → Marked P order_id status t'
unfolding update_order
update_order-Marked order_id status P db t t' n prior h =
    let ((rows, m), e, same) =
      if_ok-ok (with_counted_orders t) _ _ (values_fit-ok (db.fits (some 50) status) _ (t', n) h) in
    let set : with_status order_id status (now_of db) t.orders ≡ rows =
      cc (update_rows-map (is_order order_id) (set_status status (now_of db)) t.orders, e) in
    record {
      earlier = t;
      prior = prior;
      now = now_of db;
      rest = sym (ap (λ x. x.0) same) ∙ ap (λ x. record t { orders = x }) (sym set);
    }

module _ {server : ℕ → Call} {before : Tables} {F : Tables → Type 0} (order_id : Text) where
  Ensures-get_by_id :
      Ensures
        (InTransaction server before (λ t. t ≡ before))
        (get_by_id order_id)
        (λ order. InTransaction server before (Read order_id before order))
        (Leaving server before F)
  unfolding get_by_id
  Ensures-get_by_id =
      Ensures-annotate _ _ (Ensures-query_pool _ (λ t a same h. (scan_row-ok _ a h, same)))

  Ensures-update_status :
      {P : Tables → Type 0} (status : Text)
      → Ensures
          (InTransaction server before P)
          (update_status order_id status)
          (λ _. InTransaction server before (Marked P order_id status))
          (Leaving server before F)
  unfolding update_status
  Ensures-update_status {P} status =
      Ensures-bind _ _
        (Ensures-annotate _ _ (
          Ensures-exec {Q = λ n. Marked P order_id status} (update_order order_id status)
            (update_order-Marked order_id status P)))
        (λ n.
          Ensures-lift (affected _ n) (λ a db h p. p)
            (λ db p. Leaving.unfinished (record { opened = p.opened; seen = tt })))

-- What `ConfirmOrder` does to the tables, all at once.
pub record OrderConfirmed (server : ℕ → Call) (marshal : OrderConfirmedEvent → Result Text)
    (order_id : Text) (t t' : Tables) : Type 0 where
  pub order : Order
  pub found : first_of? (is_order order_id) t.orders ≡ some order
  pub now : ℕ
  pub order_rows : t'.orders ≡ with_status order_id order_status_confirmed now t.orders
  pub stock : StockChange (Decreases order.quantity) order.product_id t.inventory t'.inventory
  pub products : UniqueProducts t'.inventory
  pub payload : Text
  pub bytes : marshal (order_confirmed_event order_id order) ≡ ok payload
  pub message : Outbox
  pub message_row :
      Appended server
        (message_params (codes "order.confirmed") payload (confirmed_key order_id) 5)
        message
        t.outbox
        t'.outbox
  pub others : t' ≡ record t { orders = t'.orders; inventory = t'.inventory; outbox = t'.outbox }

module _ (server : ℕ → Call) (marshal : OrderConfirmedEvent → Result Text) (order_id : Text)
    (before : Tables) where
  Confirming : Order → Tables → Type 0
  Confirming order =
      Published server
        (Restocked (Marked (Read order_id before order) order_id order_status_confirmed)
          (Decreases order.quantity) order.product_id)
        (marshal (order_confirmed_event order_id order)) (codes "order.confirmed")
        (confirmed_key order_id) 5

  Done : Tables → Type 0
  Done t = (order : Order) × Confirming order t

  Done-OrderConfirmed : (t : Tables) → Done t → OrderConfirmed server marshal order_id before t
  unfolding Done Confirming
  Done-OrderConfirmed t (order, d) =
      let s = d.inserted.prior in
      let m = s.prior in
      let same : m.earlier ≡ before = m.prior.1 in
      let same_inventory : s.earlier.inventory ≡ before.inventory =
        ap (λ x. x.inventory) m.rest ∙ ap (λ x. x.inventory) same in
      let same_outbox : d.inserted.earlier.outbox ≡ before.outbox =
        ap (λ x. x.outbox) s.rest ∙ (ap (λ x. x.outbox) m.rest ∙ ap (λ x. x.outbox) same) in
      let beside = λ (x : Tables). record x {
        orders = t.orders;
        inventory = t.inventory;
        outbox = t.outbox;
      } in
      record {
        order = order;
        found = m.prior.0;
        now = m.now;
        order_rows =
            ap (λ x. x.orders) d.inserted.rest
            ∙ (ap (λ x. x.orders) s.rest
                ∙ (ap (λ x. x.orders) m.rest
                    ∙ ap (λ x. with_status order_id order_status_confirmed m.now x.orders) same));
        stock = rw (ap (λ x. x.inventory) d.inserted.rest, sym same_inventory) s.change;
        products = rw (ap (λ x. x.inventory) d.inserted.rest) s.unique;
        payload = d.payload;
        bytes = d.bytes;
        message = d.inserted.message;
        message_row = rw (sym same_outbox) d.inserted.row;
        others =
            ap beside d.inserted.rest ∙ (ap beside s.rest ∙ (ap beside m.rest ∙ ap beside same));
      }

  Marked-UniqueProducts :
      UniqueProducts before.inventory
      → (order : Order) (t : Tables)
      → Marked (Read order_id before order) order_id order_status_confirmed t
      → UniqueProducts t.inventory
  Marked-UniqueProducts unique order t m =
      rw (ap (λ x. x.inventory) m.rest ∙ ap (λ x. x.inventory) m.prior.1) unique

  pub confirm_order-Outcome :
      UniqueProducts before.inventory
      → (db : AppDatabase) → db.transaction ≡ none
      → db.tables ≡ before
      → db.schedule ≡ server
      → Outcome tt before
          (OrderConfirmed server marshal order_id before)
          (confirm_order marshal order_id db)
  unfolding confirm_order Done Confirming
  confirm_order-Outcome unique =
      in_transaction-Outcome server tt before Done _ Done-OrderConfirmed _ (
        Ensures-bind _ _ (Ensures-annotate _ _ (Ensures-get_by_id order_id)) (λ order.
          Ensures-weaken _
            (Ensures-bind _ _
              (Ensures-annotate _ _ (Ensures-update_status order_id order_status_confirmed))
              (λ _.
                Ensures-bind _ _
                  (Ensures-annotate _ _ (
                    Ensures-decrease {F = Confirming order} (Marked-UniqueProducts unique order)
                      order.product_id order.quantity))
                  (λ _. Ensures-publish_and_commit _ _ _ 5 tt)))
            (λ a db h. (h.0, record { closed = h.1.closed; holds = (order, h.1.holds) }))
            (confirming order)))
    where
      confirming :
          (order : Order) (db : AppDatabase)
          → Leaving server before (Confirming order) db
          → Leaving server before Done db
      confirming order db (Leaving.unfinished p) = Leaving.unfinished p
      confirming order db (Leaving.finished p) =
          Leaving.finished (record { closed = p.closed; holds = (order, p.holds) })
