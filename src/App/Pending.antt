-- ===== src/App/Pending.antt =====
-- examples/app/internal/repository/order.go: what the pending orders of a product hold, as the orders change.
use mathlib.Core.Path.{subst}
use o4x.Prelude.{
  ℕ, ◌+◌, ◌≤◌, ◌≡◌, refl, sym, ap, ◌∙◌, ◌⊎◌, inl, inr, Bool, true, false, ◌&&◌, some, List, [], ◌∷◌,
  ◌++◌, Text, text_eq, text_eq_iff, any_of, first_of?, tally, Bool-cases, arith, if◌then◌else◌,
}
use o4x.Core.Int64.{ℤ, pos, negsuc}
use o4x.Pgx.InboxKeys.{tally-append, tally-none}
use o4x.App.Store.{Order, order_status_pending, order_status_confirmed}
use o4x.App.OrderRepository.{is_order, set_status}
use o4x.App.ConfirmOrder.{with_status}

abbrev pub amount : ℤ → ℕ
amount (pos n) = n
amount (negsuc n) = 0

-- What one order holds of a product.
unfoldable pub held : Text → Order → ℕ
held p o =
    if text_eq o.product_id p && text_eq o.status order_status_pending then amount o.quantity else 0

-- What the pending orders hold of a product.
unfoldable pub pending : Text → List Order → ℕ
pending p [] = 0
pending p (o ∷ orders) = held p o + pending p orders

pub pending-append :
    (p : Text) (orders : List Order) (o : Order)
    → pending p (orders ++ o ∷ []) ≡ pending p orders + held p o
unfolding pending
pending-append p [] o = omega arith
pending-append p (x ∷ orders) o = omega (arith, pending-append p orders o)

held_confirmed :
    (p : Text) (now : ℕ) (o : Order) → held p (set_status order_status_confirmed now o) ≡ 0
unfolding held text_eq
held_confirmed p now o = by (text_eq o.product_id p)
  where
    by : (b : Bool) → (if b && false then amount o.quantity else 0) ≡ 0
    by true = refl
    by false = refl

with_status_absent :
    (j status : Text) (now : ℕ) (orders : List Order)
    → tally (is_order j) orders ≡ 0
    → with_status j status now orders ≡ orders
with_status_absent j status now [] h = refl
with_status_absent j status now (o ∷ orders) h = elim (Bool-cases (is_order j o)) [
  | inl there ↦ absurd (ground arith)
  | inr other ↦
      let rest : tally (is_order j) orders ≡ 0 = ground arith in
      rw (other, with_status_absent j status now orders rest) refl
]

-- Confirming the one order with an id sets free what it held.
pub pending-with_status :
    (p j : Text) (now : ℕ) (orders : List Order) (o : Order)
    → tally (is_order j) orders ≤ 1
    → first_of? (is_order j) orders ≡ some o
    → pending p (with_status j order_status_confirmed now orders) + held p o ≡ pending p orders
unfolding pending
pending-with_status p j now [] o once h = absurd (cc)
pending-with_status p j now (x ∷ orders) o once h = elim (Bool-cases (is_order j x)) [
  | inl here ↦
      let none_left : tally (is_order j) orders ≡ 0 = ground arith in
      let e : x ≡ o = ground arith in
      rw (here, with_status_absent j order_status_confirmed now orders none_left, e)
        (omega (arith, held_confirmed p now o))
  | inr other ↦
      let fewer : tally (is_order j) orders ≤ 1 = ground arith in
      let found : first_of? (is_order j) orders ≡ some o = ground arith in
      rw other (omega (arith, pending-with_status p j now orders o fewer found))
]

pub tally-with_status :
    (i j status : Text) (now : ℕ) (orders : List Order)
    → tally (is_order i) (with_status j status now orders) ≡ tally (is_order i) orders
tally-with_status i j status now [] = refl
tally-with_status i j status now (o ∷ orders) = elim (Bool-cases (is_order j o)) [
  | inl there ↦ rw (there, tally-with_status i j status now orders) refl
  | inr other ↦ rw (other, tally-with_status i j status now orders) refl
]

first_of?-here :
    {A : Type 0} (q : A → Bool) (x : A) (xs : List A) → q x ≡ true → first_of? q (x ∷ xs) ≡ some x
first_of?-here q x xs e = rw e refl

first_of?-there :
    {A : Type 0} (q : A → Bool) (x : A) (xs : List A)
    → q x ≡ false
    → first_of? q (x ∷ xs) ≡ first_of? q xs
first_of?-there q x xs e = rw e refl

pub first_of?-with_status_same :
    (j status : Text) (now : ℕ) (orders : List Order) (o : Order)
    → first_of? (is_order j) (with_status j status now orders) ≡ some o
    → (old : Order) × (first_of? (is_order j) orders ≡ some old) × (o.quantity ≡ old.quantity)
first_of?-with_status_same j status now [] o h = absurd (cc)
first_of?-with_status_same j status now (x ∷ orders) o h = elim (Bool-cases (is_order j x)) [
  | inl e ↦
      let made : (set_status status now x) ≡ o = cc (
        first_of?-here (is_order j) (set_status status now x) (with_status j status now orders) e,
        at_head true e,
      ) in
      (x, first_of?-here (is_order j) x orders e, ap (λ u. u.quantity) (sym made))
  | inr e ↦
      let (old, found, same) = first_of?-with_status_same j status now orders o (
        sym (first_of?-there (is_order j) x (with_status j status now orders) e)
        ∙ at_head false e) in
      (old, first_of?-there (is_order j) x orders e ∙ found, same)
]
  where
    at_head :
        (b : Bool)
        → is_order j x ≡ b
        → first_of?
            (is_order j)
            ((if b then set_status status now x else x) ∷ with_status j status now orders)
          ≡ some o
    at_head b e =
        subst
          (λ b.
            first_of? (is_order j)
              ((if b then set_status status now x else x) ∷ with_status j status now orders)
            ≡ some o)
          e h

pub first_of?-with_status_other :
    (i j status : Text) (now : ℕ) (orders : List Order)
    → text_eq j i ≡ false
    → first_of? (is_order i) (with_status j status now orders) ≡ first_of? (is_order i) orders
first_of?-with_status_other i j status now [] h = refl
first_of?-with_status_other i j status now (x ∷ orders) h = elim (Bool-cases (is_order j x)) [
  | inl there ↦
      let e : text_eq x.id i ≡ false = ap (λ u. text_eq u i) ((text_eq_iff x.id j).0 there) ∙ h in
      rw (there, e) (first_of?-with_status_other i j status now orders h)
  | inr other ↦ rw (other, first_of?-with_status_other i j status now orders h) refl
]

pub first_of?-append :
    {A : Type 0} (q : A → Bool) (xs : List A) (x y : A)
    → first_of? q (xs ++ x ∷ []) ≡ some y
    → (first_of? q xs ≡ some y) ⊎ (x ≡ y)
first_of?-append q [] x y h = ground (arith)
first_of?-append q (z ∷ xs) x y h = ground (arith, first_of?-append q xs x y)

pub tally-append_new :
    (j : Text) (o : Order) (orders : List Order)
    → any_of (is_order o.id) orders ≡ false
    → tally (is_order j) orders ≤ 1
    → tally (is_order j) (orders ++ o ∷ []) ≤ 1
tally-append_new j o orders new once = elim (Bool-cases (is_order j o)) [
  | inl here ↦
      let e : o.id ≡ j = (text_eq_iff o.id j).0 here in
      let gone : tally (is_order j) orders ≡ 0 =
        tally-none (is_order j) orders (subst (λ i. any_of (is_order i) orders ≡ false) e new) in
      ground (arith, tally-append (is_order j) orders o, gone)
  | inr other ↦ ground (arith, tally-append (is_order j) orders o, other, once)
]
