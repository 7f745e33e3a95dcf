-- ===== src/App/BalanceConfirmed.antt =====
-- examples/app/internal/service/order.go: `ConfirmOrder` keeps the reservations at what the pending orders hold.
use mathlib.Core.Path.{subst}
use o4x.Prelude.{
  ℕ, ◌+◌, ◌≡◌, sym, ap, ◌∙◌, inl, inr, false, some, Text, text_eq, text_eq_iff, text_eq_refl,
  first_of?, Bool-cases, arith,
}
use o4x.Pgx.Calls.{Call}
use o4x.Core.Errors.{Result}
use o4x.App.Store.{Order, Inventory, Tables, order_status_pending, order_status_confirmed}
use o4x.App.OrderRepository.{is_order}
use o4x.App.InventoryRepository.{of_product}
use o4x.App.ConfirmOrder.{OrderConfirmed}
use o4x.App.Footprints.{Keeps}
use o4x.App.ConfirmedOnce.{Appended-HasMessage, HasMessage-Keeps, Appended-taken}
use o4x.App.Pending.{
  held, pending, pending-with_status, tally-with_status, first_of?-with_status_same,
  first_of?-with_status_other,
}
use o4x.App.Events.{OrderConfirmedEvent}
use o4x.App.Balance.{HasConfirmation, IsPositive, IsBalanced, held_other, held_pending, minus-pos}

module _ {server : ℕ → Call} (marshal : OrderConfirmedEvent → Result Text) (order_id : Text)
    (t t' : Tables) (b : IsBalanced t) (done : OrderConfirmed server marshal order_id t t')
    (keeps : Keeps t.outbox t'.outbox) where
  confirmed_pending : done.order.status ≡ order_status_pending
  confirmed_pending = elim (b.settled order_id done.order done.found) [
    | inl h ↦ h
    | inr m ↦ absurd (cc (Appended-taken _ done.message t.outbox t'.outbox done.message_row m))
  ]

  confirmed_pending-with : (p : Text) → pending p t'.orders + held p done.order ≡ pending p t.orders
  confirmed_pending-with p =
      rw done.order_rows
        (pending-with_status p order_id done.now t.orders done.order (b.ids order_id) done.found)

  confirmed_here :
      (row : Inventory)
      → first_of? (of_product done.order.product_id) t'.inventory ≡ some row
      → row.reserved ≡ pending done.order.product_id t'.orders
  confirmed_here row found =
      let s = done.stock in
      let p = done.order.product_id in
      let same : row ≡ s.new = cc (found, s.stored) in
      let (n, positive) = b.positive order_id done.order done.found in
      omega (
        arith,
        ap (λ x. x.reserved) same,
        minus-pos s.old.reserved n s.new.reserved done.order.quantity positive s.change.1.1,
        b.reservations p s.old s.found,
        held_pending p done.order (text_eq_refl p) confirmed_pending,
        confirmed_pending-with p,
      )

  confirmed_reservations :
      (p : Text) (row : Inventory)
      → first_of? (of_product p) t'.inventory ≡ some row
      → row.reserved ≡ pending p t'.orders
  confirmed_reservations p row found = elim (Bool-cases (text_eq done.order.product_id p)) [
    | inl here ↦
        subst
          (λ p.
            (row : Inventory)
            → first_of? (of_product p) t'.inventory ≡ some row
            → row.reserved ≡ pending p t'.orders)
          ((text_eq_iff done.order.product_id p).0 here) confirmed_here row found
    | inr other ↦ omega (
      arith,
      b.reservations p row (sym (done.stock.others p other) ∙ found),
      held_other p done.order other,
      confirmed_pending-with p,
    )
  ]

  unmarked :
      (j : Text) (o : Order)
      → text_eq order_id j ≡ false
      → first_of? (is_order j) t'.orders ≡ some o
      → first_of? (is_order j) t.orders ≡ some o
  unmarked j o other found =
      sym (first_of?-with_status_other j order_id order_status_confirmed done.now t.orders other)
      ∙ (ap (first_of? (is_order j)) (sym done.order_rows) ∙ found)

  confirmed-IsPositive :
      (j : Text) (o : Order) → first_of? (is_order j) t'.orders ≡ some o → IsPositive o.quantity
  confirmed-IsPositive j o found = elim (Bool-cases (text_eq order_id j)) [
    | inr other ↦ b.positive j o (unmarked j o other found)
    | inl here ↦
        let e : order_id ≡ j = (text_eq_iff order_id j).0 here in
        let marked =
          first_of?-with_status_same order_id order_status_confirmed done.now t.orders o (
            ap (first_of? (is_order order_id)) (sym done.order_rows)
            ∙ subst (λ j. first_of? (is_order j) t'.orders ≡ some o) (sym e) found) in
        let (n, positive) = b.positive order_id marked.0 marked.1 in (n, marked.2 ∙ positive)
  ]

  pub confirmed-IsBalanced : IsBalanced t'
  confirmed-IsBalanced = record {
    reservations = confirmed_reservations;
    settled = λ j o found. elim (Bool-cases (text_eq order_id j)) [
      | inr other ↦ elim (b.settled j o (unmarked j o other found)) [
        | inl h ↦ inl h
        | inr h ↦ inr (HasMessage-Keeps _ _ t.outbox t'.outbox keeps h)
      ]
      | inl here ↦ inr (
          subst (λ j. HasConfirmation j t') ((text_eq_iff order_id j).0 here)
            (Appended-HasMessage _ done.message t.outbox t'.outbox done.message_row))
    ];
    positive = confirmed-IsPositive;
    ids = λ j.
        rw (done.order_rows, tally-with_status j order_id order_status_confirmed done.now t.orders)
          (b.ids j);
  }

-- Requests that change neither the orders nor the stock.
pub IsBalanced-same :
    (t t' : Tables)
    → t'.orders ≡ t.orders
    → t'.inventory ≡ t.inventory
    → Keeps t.outbox t'.outbox
    → IsBalanced t
    → IsBalanced t'
IsBalanced-same t t' orders inventory keeps b = record {
  reservations = λ p row found.
      b.reservations p row (ap (first_of? (of_product p)) (sym inventory) ∙ found)
      ∙ ap (pending p) (sym orders);
  settled = λ j o found. elim (b.settled j o (ap (first_of? (is_order j)) (sym orders) ∙ found)) [
    | inl h ↦ inl h
    | inr h ↦ inr (HasMessage-Keeps _ _ t.outbox t'.outbox keeps h)
  ];
  positive = λ j o found. b.positive j o (ap (first_of? (is_order j)) (sym orders) ∙ found);
  ids = λ j. rw orders (b.ids j);
}
