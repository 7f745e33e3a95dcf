-- ===== src/App/Stock.antt =====
-- examples/app/internal/repository/inventory.go: what an `UPDATE` of the stock of one product does to the table.
use mathlib.Core.Path.{subst}
use o4x.Prelude.{
  ℕ, suc, ◌≤◌, ◌≡◌, refl, sym, ap, ◌∙◌, inl, inr, Bool, true, false, ◌&&◌, some, List, [], ◌∷◌,
  Text, text_eq, text_eq_iff, first_of?, tally, All, &&-eq-true, arith, Bool-cases,
}
use o4x.Core.Errors.{Result, ok, err}
use o4x.App.Store.{Inventory}
use o4x.App.Statements.{update_rows, update_row}
use o4x.App.InventoryRepository.{of_product}

-- How one row enters the table that `update_rows` gives.
data RowStep {A : Type 0} (b : Bool) (x : A) (r : Result A) (rest : Result (List A × ℕ))
    (ys : List A) (n : ℕ) : Type 0 where
  skipped : b ≡ false → (zs : List A) → rest ≡ ok (zs, n) → ys ≡ x ∷ zs → RowStep b x r rest ys n
  updated :
      b ≡ true
      → (y : A) (zs : List A) (m : ℕ) → r ≡ ok y
      → rest ≡ ok (zs, m)
      → ys ≡ y ∷ zs
      → n ≡ suc m
      → RowStep b x r rest ys n

update_row-RowStep :
    {A : Type 0} (b : Bool) (x : A) (r : Result A) (rest : Result (List A × ℕ)) (ys : List A)
    (n : ℕ)
    → update_row b x r rest ≡ ok (ys, n)
    → RowStep b x r rest ys n
update_row-RowStep true x (err e) rest ys n h = absurd (cc)
update_row-RowStep true x (ok y) (err e) ys n h = absurd (cc)
update_row-RowStep true x (ok y) (ok (zs, m)) ys n h =
    RowStep.updated refl y zs m refl refl (sym (cc h)) (sym (cc h))
update_row-RowStep false x r (err e) ys n h = absurd (cc)
update_row-RowStep false x r (ok (zs, m)) ys n h = RowStep.skipped refl zs (cc h) (sym (cc h))

-- The products, each with one row.
pub record UniqueProducts (rows : List Inventory) : Type 0 where
  pub once : (p : Text) → tally (of_product p) rows ≤ 1

-- The row of a product has changed by `P`, and the rows of the others have not.
pub record StockChange (P : Inventory → Inventory → Type 0) (p : Text) (rows rows' : List Inventory)
    : Type 0 where
  pub others :
      (q : Text)
      → text_eq p q ≡ false
      → first_of? (of_product q) rows' ≡ first_of? (of_product q) rows
  pub old : Inventory
  pub new : Inventory
  pub found : first_of? (of_product p) rows ≡ some old
  pub stored : first_of? (of_product p) rows' ≡ some new
  pub change : P old new

module _ (p : Text) (guard : Inventory → Bool) (f : Inventory → Result Inventory)
    (same_product : (x y : Inventory) → f x ≡ ok y → y.product_id ≡ x.product_id) where
  abbrev picked : Inventory → Bool
  picked row = of_product p row && guard row

  update_rows-none :
      (rows rows' : List Inventory) (n : ℕ)
      → tally (of_product p) rows ≡ 0
      → update_rows picked f rows ≡ ok (rows', n)
      → n ≡ 0
  unfolding update_rows
  update_rows-none [] rows' n none_of h = sym (cc h)
  update_rows-none (x ∷ rows) rows' n none_of h =
      elim (update_row-RowStep (picked x) x (f x) (update_rows picked f rows) rows' n h) [
        | RowStep.skipped b zs e same ↦ update_rows-none rows zs n (ground (arith)) e
        | RowStep.updated b y zs m e e' same k ↦ absurd (ground (arith))
      ]

  pub update_rows-others :
      (rows rows' : List Inventory) (n : ℕ) (q : Text)
      → update_rows picked f rows ≡ ok (rows', n)
      → text_eq p q ≡ false
      → first_of? (of_product q) rows' ≡ first_of? (of_product q) rows
  unfolding update_rows
  update_rows-others [] rows' n q h other = rw (sym (ap (λ r. got r) h)) refl
    where
      got : Result (List Inventory × ℕ) → List Inventory
      got (ok (zs, m)) = zs
      got (err e) = []
  update_rows-others (x ∷ rows) rows' n q h other =
      elim (update_row-RowStep (picked x) x (f x) (update_rows picked f rows) rows' n h) [
        | RowStep.skipped b zs e same ↦ rw (same, update_rows-others rows zs n q e other) refl
        | RowStep.updated b y zs m e e' same k ↦
            let xp = (text_eq_iff x.product_id p).0 (&&-eq-true _ _ b).0 in
            let xq : text_eq x.product_id q ≡ false = ap (λ s. text_eq s q) xp ∙ other in
            let yq : text_eq y.product_id q ≡ false =
              ap (λ s. text_eq s q) (same_product x y e) ∙ xq in
            rw (same, yq, xq) (update_rows-others rows zs m q e' other)
      ]

  pub update_rows-found :
      (rows rows' : List Inventory) (n : ℕ)
      → tally (of_product p) rows ≤ 1
      → update_rows picked f rows ≡ ok (rows', n)
      → 1 ≤ n
      → (old new : Inventory) × (first_of? (of_product p) rows ≡ some old)
        × (first_of? (of_product p) rows' ≡ some new)
        × (guard old ≡ true)
        × (f old ≡ ok new)
  unfolding update_rows
  update_rows-found [] rows' n once h least = absurd (ground (arith))
  update_rows-found (x ∷ rows) rows' n once h least =
      elim (update_row-RowStep (picked x) x (f x) (update_rows picked f rows) rows' n h) [
        | RowStep.skipped b zs e same ↦ elim (Bool-cases (of_product p x)) [
          | inl here ↦
              let free : tally (of_product p) rows ≡ 0 = ground arith in
              let none_done = update_rows-none rows zs n free e in absurd (omega arith)
          | inr there ↦
              let fewer : tally (of_product p) rows ≤ 1 = ground arith in
              let (old, new, found, stored, g, done) = update_rows-found rows zs n fewer e least in
              (old, new, rw there found, rw (same, there) stored, g, done)
        ]
        | RowStep.updated b y zs m e e' same k ↦
            let (here, g) = &&-eq-true _ _ b in
            let yp : text_eq y.product_id p ≡ true =
              ap (λ s. text_eq s p) (same_product x y e) ∙ here in
            (x, y, rw here refl, rw (same, yp) refl, g, e)
      ]

  pub update_rows-tally :
      (rows rows' : List Inventory) (n : ℕ) (q : Text)
      → update_rows picked f rows ≡ ok (rows', n)
      → tally (of_product q) rows' ≡ tally (of_product q) rows
  unfolding update_rows
  update_rows-tally [] rows' n q h = let e : [] ≡ rows' = cc h in rw (sym e) refl
  update_rows-tally (x ∷ rows) rows' n q h =
      elim (update_row-RowStep (picked x) x (f x) (update_rows picked f rows) rows' n h) [
        | RowStep.skipped b zs e same ↦ rw (same, update_rows-tally rows zs n q e) refl
        | RowStep.updated b y zs m e e' same k ↦
            rw (same, same_product x y e, update_rows-tally rows zs m q e') refl
      ]

  pub update_rows-All :
      (P : Inventory → Type 0)
      → ((x y : Inventory) → f x ≡ ok y → P y)
      → (rows rows' : List Inventory) (n : ℕ) → update_rows picked f rows ≡ ok (rows', n)
      → All P rows
      → All P rows'
  unfolding update_rows
  update_rows-All P made [] rows' n h all = let e : [] ≡ rows' = cc h in subst (All P) e tt
  update_rows-All P made (x ∷ rows) rows' n h all =
      elim (update_row-RowStep (picked x) x (f x) (update_rows picked f rows) rows' n h) [
        | RowStep.skipped b zs e same ↦
            subst (All P) (sym same) (all.0, update_rows-All P made rows zs n e all.1)
        | RowStep.updated b y zs m e e' same k ↦
            subst (All P) (sym same) (made x y e, update_rows-All P made rows zs m e' all.1)
      ]
