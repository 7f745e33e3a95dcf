-- ===== src/App/OrderRepository.antt =====
-- examples/app/internal/repository/order.go: the table `orders`.
use o4x.Prelude.{ℕ, Bool, ◌&&◌, some, List, ◌++◌, Text, codes, text_eq, first_of?}
use o4x.Core.Errors.{GoError, external, Result, ok}
use o4x.App.Store.{Order, Tables, AppDatabase}
use o4x.App.Actions.{Action, lift, ◌>>=◌, annotate, exec, query_pool, now_of}
use o4x.App.Statements.{
  fits_int4, update_rows, insert_unique, scan_row, affected, if_ok, values_fit,
}

abbrev pub is_order : Text → Order → Bool
is_order order_id o = text_eq o.id order_id

abbrev pub with_orders : Tables → List Order → Tables × Unit {0}
with_orders t rows = (record t { orders = rows }, tt)

unfoldable pub insert_order : Order → AppDatabase → Tables → Result (Tables × Unit {0})
insert_order order db t =
    values_fit
      (db.fits (some 255) order.product_id
        && (fits_int4 order.quantity
            && (fits_int4 order.total_price && db.fits (some 50) order.status)))
      (if_ok (with_orders t) (insert_unique (is_order order.id) order t.orders))

unfoldable pub create : Order → Action Unit
create order = annotate (codes "failed to create order: ") (exec (insert_order order))

unfoldable pub get_by_id : Text → Action Order
get_by_id order_id =
    annotate (codes "failed to get order: ")
      (query_pool λ t. scan_row (first_of? (is_order order_id) t.orders))

abbrev pub with_counted_orders : Tables → List Order × ℕ → Tables × ℕ
with_counted_orders t (rows, n) = (record t { orders = rows }, n)

abbrev pub set_status : Text → ℕ → Order → Order
set_status status now o = record o { status = status; updated_at = now }

unfoldable pub update_order : Text → Text → AppDatabase → Tables → Result (Tables × ℕ)
update_order order_id status db t = values_fit (db.fits (some 50) status) (
    if_ok (with_counted_orders t)
      (update_rows (is_order order_id) (λ o. ok (set_status status (now_of db) o)) t.orders))

abbrev pub order_not_found : Text → GoError
order_not_found order_id = external (codes "order not found: " ++ order_id)

unfoldable pub update_status : Text → Text → Action Unit
update_status order_id status = do
  n ← annotate (codes "failed to update order status: ") (exec (update_order order_id status))
  lift (affected (order_not_found order_id) n)
