-- ===== src/App/StockRules.antt =====
-- examples/app/internal/repository/inventory.go: what `Reserve`, `Decrease` and `ReleaseReservation` ensure.
use o4x.Prelude.{
  ℕ, zero, suc, ◌^◌, ◌≤◌, ◌≡◌, refl, sym, ap, Bool, true, false, ◌&&◌, Option, none, some, Text,
  leb, ltb, leb→le, All, arith, if◌then◌else◌, &&-eq-true,
}
use o4x.Pgx.Calls.{Call}
use o4x.Core.Errors.{GoError, Result, ok, err}
use o4x.Core.Int64.{ℤ}
use o4x.App.Store.{Inventory, Tables, AppDatabase}
use o4x.App.Actions.{lift, ◌>>=◌, annotate, exec, now_of}
use o4x.App.Actions.Rules.{
  Ensures, InTransaction, Leaving, Ensures-lift, Ensures-annotate, Ensures-bind, Ensures-exec,
}
use o4x.App.Statements.{affected, if_ok, values_fit, fits_int4, bad_value}
use o4x.App.InventoryRepository.{
  plus, minus, at_least, has_available, with_stock, with_inventory, update_stock, reserve_row,
  decrease_row, reserve, decrease,
}
use o4x.App.Stock.{
  UniqueProducts, StockChange, update_rows-others, update_rows-found, update_rows-tally,
  update_rows-All,
}

abbrev pub IsStocked : Inventory → Type 0
IsStocked row = row.reserved ≤ row.quantity

pub values_fit-ok :
    {A : Type 0} (b : Bool) (r : Result A) (a : A) → values_fit b r ≡ ok a → r ≡ ok a
values_fit-ok true r a h = h
values_fit-ok false r a h = absurd (cc)

pub ok-injective : {A : Type 0} (a b : A) → ◌≡◌ {A = Result A} (ok a) (ok b) → a ≡ b
ok-injective a b h = cc

pub if_ok-ok :
    {A T : Type 0} (f : A → T) (r : Result A) (b : T)
    → if_ok f r ≡ ok b
    → (a : A) × (r ≡ ok a) × (f a ≡ b)
if_ok-ok f (ok a) b h = (a, refl, cc h)
if_ok-ok f (err e) b h = absurd (cc)

pub affected-ok : (e : GoError) (n : ℕ) (a : Unit {0}) → affected e n ≡ ok a → 1 ≤ n
unfolding affected
affected-ok e zero a h = absurd (cc)
affected-ok e (suc n) a h = omega arith

-- A row that `with_stock` gives.
abbrev pub Restock : Inventory → Option ℕ → Option ℕ → Inventory → Type 0
Restock row q r new =
    (q ≡ some new.quantity)
    × (r ≡ some new.reserved)
    × IsStocked new
    × (new.product_id ≡ row.product_id)

with_stock-Restock :
    (now : ℕ) (row : Inventory) (q r : Option ℕ) (new : Inventory)
    → with_stock now row q r ≡ ok new
    → Restock row q r new
unfolding with_stock
with_stock-Restock now row (some q) (some r) new h = by (leb r q && ltb q (2 ^ 31)) refl h
  where
    by :
        (b : Bool)
        → (leb r q && ltb q (2 ^ 31)) ≡ b
        → (if b
            then ok (record row { quantity = q; reserved = r; updated_at = now })
            else err bad_value)
          ≡ ok new
        → Restock row (some q) (some r) new
    by true e k =
        let made : record row { quantity = q; reserved = r; updated_at = now } ≡ new = cc k in
        let most : r ≤ q = leb→le r q (&&-eq-true _ _ e).0 in rw (sym made) (refl, refl, most, refl)
    by false e k = absurd (cc)
with_stock-Restock now row (some q) none new h = absurd (cc)
with_stock-Restock now row none r new h = absurd (cc)

-- Tables with `P`, but for the stock of one product.
pub record Restocked (P : Tables → Type 0) (C : Inventory → Inventory → Type 0) (p : Text)
    (t : Tables) : Type 0 where
  pub earlier : Tables
  pub prior : P earlier
  pub change : StockChange C p earlier.inventory t.inventory
  pub stocked : All IsStocked earlier.inventory → All IsStocked t.inventory
  pub unique : UniqueProducts t.inventory
  pub rest : t ≡ record earlier { inventory = t.inventory }

module _ {P : Tables → Type 0} (C : Inventory → Inventory → Type 0)
    (unique : (t : Tables) → P t → UniqueProducts t.inventory) (guard : Inventory → Bool)
    (f : ℕ → Inventory → Result Inventory)
    (made : (now : ℕ) (x y : Inventory)
      → f now x ≡ ok y
      → IsStocked y × (y.product_id ≡ x.product_id))
    (changes : (now : ℕ) (x y : Inventory) → guard x ≡ true → f now x ≡ ok y → C x y) where
  update_stock-Restocked :
      (p : Text) (z : ℤ) (db : AppDatabase) (t t' : Tables) (n : ℕ)
      → P t
      → update_stock guard f p z db t ≡ ok (t', n)
      → 1 ≤ n
      → Restocked P C p t'
  unfolding update_stock
  update_stock-Restocked p z db t t' n prior h least =
      let now = now_of db in
      let kept = λ (x y : Inventory) (e : f now x ≡ ok y). (made now x y e).1 in
      let stocked = λ (x y : Inventory) (e : f now x ≡ ok y). (made now x y e).0 in
      let ((rows', m), e, same) =
        if_ok-ok (with_inventory t) _ _
          (values_fit-ok (fits_int4 z && db.fits none p) _ (t', n) h) in
      let count : m ≡ n = ap (λ x. x.1) same in
      let new_tables : record t { inventory = rows' } ≡ t' = ap (λ x. x.0) same in
      let (old, new, found, stored, g, done) =
        update_rows-found p guard (f now) kept t.inventory rows' m ((unique t prior).once p) e
          (omega (arith, count, least)) in
      rw (sym new_tables) (record {
        earlier = t;
        prior = prior;
        change = record {
          others = λ q. update_rows-others p guard (f now) kept t.inventory rows' m q e;
          old = old;
          new = new;
          found = found;
          stored = stored;
          change = changes now old new g done;
        };
        stocked = update_rows-All p guard (f now) kept IsStocked stocked t.inventory rows' m e;
        unique = record {
          once = λ q. omega (
            arith,
            update_rows-tally p guard (f now) kept t.inventory rows' m q e,
            (unique t prior).once q,
          );
        };
        rest = refl;
      })

  module _ {server : ℕ → Call} {before : Tables} {F : Tables → Type 0} where
    Ensures-update_stock :
        (message p : Text) (z : ℤ) (e : GoError)
        → Ensures
            (InTransaction server before P)
            (do n ← annotate message (exec (update_stock guard f p z)); lift (affected e n))
            (λ _. InTransaction server before (Restocked P C p))
            (Leaving server before F)
    Ensures-update_stock message p z e =
        Ensures-bind _ _
          (Ensures-annotate message _ (
            Ensures-exec {Q = λ n t. 1 ≤ n → Restocked P C p t} (update_stock guard f p z)
              (update_stock-Restocked p z)))
          (λ n.
            Ensures-lift (affected e n)
              (λ a db h p. record { opened = p.opened; seen = p.seen (affected-ok e n a h) })
              (λ db p. Leaving.unfinished (record { opened = p.opened; seen = tt })))

-- The effects on the row of the product.
abbrev pub Reserves : ℤ → Inventory → Inventory → Type 0
Reserves z old new =
    (has_available z old ≡ true) × Restock old (some old.quantity) (plus old.reserved z) new

abbrev pub Decreases : ℤ → Inventory → Inventory → Type 0
Decreases z old new =
    (at_least z old.reserved ≡ true) × Restock old (minus old.quantity z) (minus old.reserved z) new

module _ {server : ℕ → Call} {before : Tables} {P F : Tables → Type 0}
    (unique : (t : Tables) → P t → UniqueProducts t.inventory) (p : Text) (z : ℤ) where
  pub Ensures-reserve :
      Ensures
        (InTransaction server before P)
        (reserve p z)
        (λ _. InTransaction server before (Restocked P (Reserves z) p))
        (Leaving server before F)
  unfolding reserve reserve_row
  Ensures-reserve =
      Ensures-update_stock (Reserves z) unique (has_available z) (reserve_row z)
        (λ now x y e. let k = with_stock-Restock now x _ _ y e in (k.2, k.3))
        (λ now x y g e. (g, with_stock-Restock now x _ _ y e)) _ p z _

  pub Ensures-decrease :
      Ensures
        (InTransaction server before P)
        (decrease p z)
        (λ _. InTransaction server before (Restocked P (Decreases z) p))
        (Leaving server before F)
  unfolding decrease decrease_row
  Ensures-decrease =
      Ensures-update_stock (Decreases z) unique (λ row. at_least z row.reserved) (decrease_row z)
        (λ now x y e. let k = with_stock-Restock now x _ _ y e in (k.2, k.3))
        (λ now x y g e. (g, with_stock-Restock now x _ _ y e)) _ p z _
