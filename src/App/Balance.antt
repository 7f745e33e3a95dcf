-- ===== src/App/Balance.antt =====
-- examples/app: the reservations of a product are what its pending orders hold.
use mathlib.Core.Path.{subst}
use o4x.Prelude.{
  ℕ, ◌+◌, ◌≤◌, ◌≡◌, refl, sym, ap, ◌∙◌, ◌⊎◌, inl, inr, true, false, some, Text, codes, text_eq,
  text_eq_iff, text_eq_refl, first_of?, tally, Bool-cases, arith,
}
use o4x.Pgx.Calls.{Call}
use o4x.Core.Int64.{ℤ, pos}
use o4x.App.Store.{Order, Inventory, Tables, order_status_pending}
use o4x.App.OrderRepository.{is_order}
use o4x.App.InventoryRepository.{of_product, plus, minus}
use o4x.App.Services.{confirmed_key}
use o4x.App.CreateOrder.{OrderPlaced}
use o4x.App.Footprints.{Keeps}
use o4x.App.ConfirmedOnce.{HasMessage, HasMessage-Keeps}
use o4x.App.Pending.{amount, held, pending, pending-append, first_of?-append, tally-append_new}

abbrev pub HasConfirmation : Text → Tables → Type 0
HasConfirmation j t = HasMessage (codes "order.confirmed") (confirmed_key j) t.outbox

abbrev pub IsPositive : ℤ → Type 0
IsPositive z = (n : ℕ) × (z ≡ pos n)

-- The reservations of each product are what its pending orders hold; an order that is not pending has a message of its
-- confirmation; ids are unique, and quantities are not negative.
pub record IsBalanced (t : Tables) : Type 0 where
  pub reservations :
      (p : Text) (row : Inventory)
      → first_of? (of_product p) t.inventory ≡ some row
      → row.reserved ≡ pending p t.orders
  pub settled :
      (j : Text) (o : Order)
      → first_of? (is_order j) t.orders ≡ some o
      → (o.status ≡ order_status_pending) ⊎ HasConfirmation j t
  pub positive :
      (j : Text) (o : Order) → first_of? (is_order j) t.orders ≡ some o → IsPositive o.quantity
  pub ids : (j : Text) → tally (is_order j) t.orders ≤ 1

pub held_other : (p : Text) (o : Order) → text_eq o.product_id p ≡ false → held p o ≡ 0
unfolding held
held_other p o h = rw h refl

pub held_pending :
    (p : Text) (o : Order)
    → text_eq o.product_id p ≡ true
    → o.status ≡ order_status_pending
    → held p o ≡ amount o.quantity
unfolding held
held_pending p o h e = rw (h, e, text_eq_refl order_status_pending) refl

plus-pos : (a n b : ℕ) (z : ℤ) → z ≡ pos n → plus a z ≡ some b → b ≡ a + amount z
plus-pos a n b z e h = ground (arith)

pub minus-pos : (a n b : ℕ) (z : ℤ) → z ≡ pos n → minus a z ≡ some b → a ≡ b + amount z
minus-pos a n b z e h = ground (arith)

module _ {server : ℕ → Call} (marshal : _) (order : Order) (t t' : Tables) (b : IsBalanced t)
    (pending_now : order.status ≡ order_status_pending) (positive : IsPositive order.quantity)
    (placed : OrderPlaced server marshal order t t') (keeps : Keeps t.outbox t'.outbox) where
  placed_here :
      (row : Inventory)
      → first_of? (of_product order.product_id) t'.inventory ≡ some row
      → row.reserved ≡ pending order.product_id t'.orders
  placed_here row found =
      let s = placed.stock in
      let p = order.product_id in
      let same : row ≡ s.new = cc (found, s.stored) in
      omega (
        arith,
        ap (λ x. x.reserved) same,
        plus-pos s.old.reserved positive.0 s.new.reserved order.quantity positive.1 s.change.1.1,
        b.reservations p s.old s.found,
        held_pending p order (text_eq_refl p) pending_now,
        pending-append p t.orders order,
        ap (pending p) placed.order_row,
      )

  placed_reservations :
      (p : Text) (row : Inventory)
      → first_of? (of_product p) t'.inventory ≡ some row
      → row.reserved ≡ pending p t'.orders
  placed_reservations p row found = elim (Bool-cases (text_eq order.product_id p)) [
    | inl here ↦
        let e : order.product_id ≡ p = (text_eq_iff order.product_id p).0 here in
        subst
          (λ p.
            (row : Inventory)
            → first_of? (of_product p) t'.inventory ≡ some row
            → row.reserved ≡ pending p t'.orders)
          e placed_here row found
    | inr other ↦ omega (
      arith,
      b.reservations p row (sym (placed.stock.others p other) ∙ found),
      held_other p order other,
      pending-append p t.orders order,
      ap (pending p) placed.order_row,
    )
  ]

  pub placed-IsBalanced : IsBalanced t'
  placed-IsBalanced = record {
    reservations = placed_reservations;
    settled = λ j o found. elim (in_orders j o found) [
      | inl old ↦ elim (b.settled j o old) [
        | inl h ↦ inl h
        | inr h ↦ inr (HasMessage-Keeps _ _ t.outbox t'.outbox keeps h)
      ]
      | inr e ↦ inl (subst (λ o. o.status ≡ order_status_pending) e pending_now)
    ];
    positive = λ j o found. elim (in_orders j o found) [
      | inl old ↦ b.positive j o old
      | inr e ↦ subst (λ o. IsPositive o.quantity) e positive
    ];
    ids = λ j. rw placed.order_row (tally-append_new j order t.orders placed.unused (b.ids j));
  }
    where
      in_orders :
          (j : Text) (o : Order)
          → first_of? (is_order j) t'.orders ≡ some o
          → (first_of? (is_order j) t.orders ≡ some o) ⊎ (order ≡ o)
      in_orders j o found =
          first_of?-append (is_order j) t.orders order o
            (ap (first_of? (is_order j)) (sym placed.order_row) ∙ found)
