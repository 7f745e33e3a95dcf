-- ===== src/App/InventoryRepository.antt =====
-- examples/app/internal/repository/inventory.go: the stock of the products. A quantity of a request may be negative.
use o4x.Prelude.{
  ℕ, suc, ◌+◌, ◌-◌, ◌^◌, Bool, ◌&&◌, Option, none, some, List, ◌++◌, Text, codes, text_eq, ltb, leb,
  first_of?, if◌then◌else◌,
}
use o4x.Core.Errors.{GoError, external, Result, ok, err}
use o4x.Core.Int64.{ℤ, pos, negsuc}
use o4x.App.Store.{Inventory, Tables, AppDatabase}
use o4x.App.Actions.{Action, lift, ◌>>=◌, annotate, exec, query_pool, now_of}
use o4x.App.Statements.{fits_int4, bad_value, update_rows, scan_row, affected, if_ok, values_fit}

abbrev pub of_product : Text → Inventory → Bool
of_product product_id row = text_eq row.product_id product_id

unfoldable pub get_by_product_id : Text → Action Inventory
get_by_product_id product_id =
    annotate (codes "failed to get inventory: ")
      (query_pool λ t. scan_row (first_of? (of_product product_id) t.inventory))

-- `a + z` and `a - z`; `none` is a negative number.
abbrev pub plus : ℕ → ℤ → Option ℕ
plus a (pos n) = some (a + n)
plus a (negsuc n) = if leb (suc n) a then some (a - suc n) else none

abbrev pub minus : ℕ → ℤ → Option ℕ
minus a (pos n) = if leb n a then some (a - n) else none
minus a (negsuc n) = some (a + suc n)

-- `reserved >= z`
abbrev pub at_least : ℤ → ℕ → Bool
at_least (pos n) a = leb n a
at_least (negsuc n) a = leb 0 a

-- `(quantity - reserved) >= z`
abbrev pub has_available : ℤ → Inventory → Bool
has_available (pos n) row = leb (row.reserved + n) row.quantity
has_available (negsuc n) row = leb row.reserved (row.quantity + suc n)

-- The new row, unless a constraint of the table or the range of its columns is violated.
unfoldable pub with_stock : ℕ → Inventory → Option ℕ → Option ℕ → Result Inventory
with_stock now row (some q) (some r) =
    if leb r q && ltb q (2 ^ 31)
    then ok (record row { quantity = q; reserved = r; updated_at = now })
    else err bad_value
with_stock now row (some q) none = err bad_value
with_stock now row none r = err bad_value

abbrev pub with_inventory : Tables → List Inventory × ℕ → Tables × ℕ
with_inventory t (rows, n) = (record t { inventory = rows }, n)

-- An `UPDATE` of the stock of one product.
unfoldable pub update_stock :
    (Inventory → Bool)
    → (ℕ → Inventory → Result Inventory)
    → Text
    → ℤ
    → AppDatabase
    → Tables
    → Result (Tables × ℕ)
update_stock p f product_id z db t = values_fit (fits_int4 z && db.fits none product_id) (
    if_ok (with_inventory t)
      (update_rows (λ row. of_product product_id row && p row) (f (now_of db)) t.inventory))

unfoldable pub reserve_row : ℤ → ℕ → Inventory → Result Inventory
reserve_row z now row = with_stock now row (some row.quantity) (plus row.reserved z)

unfoldable pub decrease_row : ℤ → ℕ → Inventory → Result Inventory
decrease_row z now row = with_stock now row (minus row.quantity z) (minus row.reserved z)

unfoldable pub release_row : ℤ → ℕ → Inventory → Result Inventory
release_row z now row = with_stock now row (some row.quantity) (minus row.reserved z)

abbrev pub insufficient : Text → GoError
insufficient product_id = external (codes "insufficient inventory for product " ++ product_id)

abbrev pub insufficient_reserved : Text → GoError
insufficient_reserved product_id =
    external (codes "insufficient reserved inventory for product " ++ product_id)

unfoldable pub reserve : Text → ℤ → Action Unit
reserve product_id z = do
  n ←
      annotate (codes "failed to reserve inventory: ")
        (exec (update_stock (has_available z) (reserve_row z) product_id z))
  lift (affected (insufficient product_id) n)

unfoldable pub decrease : Text → ℤ → Action Unit
decrease product_id z = do
  n ←
      annotate (codes "failed to decrease inventory: ")
        (exec (update_stock (λ row. at_least z row.reserved) (decrease_row z) product_id z))
  lift (affected (insufficient_reserved product_id) n)

unfoldable pub release_reservation : Text → ℤ → Action Unit
release_reservation product_id z = do
  n ←
      annotate (codes "failed to release reservation: ")
        (exec (update_stock (λ row. at_least z row.reserved) (release_row z) product_id z))
  lift (affected (insufficient_reserved product_id) n)
