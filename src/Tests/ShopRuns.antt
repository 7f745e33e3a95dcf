-- ===== src/Tests/ShopRuns.antt =====
-- The services and the handlers of the example on a shop with one product, whose orders are made and confirmed.
use o4x.Prelude.{◌≡◌, ◌≢◌, refl, true, none, List, [], ◌∷◌, Text, codes, text_eq, tally, arith}
use o4x.Core.Errors.{Result, ok}
use o4x.Core.Int64.{pos}
use o4x.Pgx.Inbox.{is_processed, complete, insert_completion}
use o4x.Pgx.Outbox.{insert, new_row}
use o4x.Pgx.Operations.{fetching}
use o4x.App.Store.{Inventory, CreateOrderRequest, Tables, AppDatabase}
use o4x.App.Events.{Drawn, OrderConfirmedEvent, new_order}
use o4x.App.Actions.{
  pure, lift, ◌>>=◌, annotate, exec, query_pool, begin, commit, rollback, deferring_rollback,
}
use o4x.App.Statements.{update_rows, insert_unique, affected}
use o4x.App.InventoryRepository.{
  update_stock, with_stock, reserve_row, decrease_row, reserve, decrease,
}
use o4x.App.OrderRepository.{insert_order, update_order, create, get_by_id, update_status}
use o4x.App.Services.{create_order, confirm_order, insert_message}
use o4x.App.Stock.{UniqueProducts}
use o4x.App.Outcome.{Outcome}
use o4x.App.Requests.{Request, creating, confirming, dispatching, Marshal, serve, serve_all}
use o4x.App.Soundness.{IsSound, serve_all-IsSound}
use o4x.App.ConfirmedOnce.{confirmed_once}
use o4x.App.Balance.{IsBalanced}
use o4x.App.Pending.{pending}
use o4x.App.Reservations.{serve_all-IsBalanced}
use o4x.App.Handlers.{
  is_confirmation, is_processed_here, complete_here, process_once, insert_confirmation,
  handle_order_confirmed,
}
use o4x.App.HandledOnce.{IsFaithful}
use o4x.App.Deliveries.{order_confirmed, deliver_all, confirmed_exactly_once}
use o4x.Tests.Samples.{steady}
use o4x.Tests.AppRuns.{first_delivery, second_delivery}

abbrev tea : Inventory
tea = record { product_id = codes "tea"; quantity = 10; reserved = 0; updated_at = 0 }

abbrev stocked_tables : Tables
stocked_tables = record {
  orders = [];
  inventory = tea ∷ [];
  notifications = [];
  users = [];
  order_confirmations = [];
  user_welcome_credits = [];
  inbox = [];
  outbox = [];
}

abbrev shop : AppDatabase
shop = record {
  tables = stocked_tables;
  transaction = none;
  calls = 0;
  schedule = steady;
  fits = λ limit s. true;
  backoff_base = 1000000;
  backoff_max = 3600000000;
  stuck_publishing_threshold = 0;
}

abbrev marshal : Marshal
marshal = record {
  order_created = λ e. ok (codes "{}");
  order_confirmed = λ e. ok (codes "{}");
  notification = λ e. ok (codes "{}");
  user_registered = λ e. ok (codes "{}");
  user_updated = λ e. ok (codes "{}");
}

abbrev drawn : Drawn
drawn = record { id = codes "o1"; created_at = 1; updated_at = 2 }

abbrev three_teas : CreateOrderRequest
three_teas = record {
  user_id = codes "u1";
  product_id = codes "tea";
  quantity = pos 3;
  total_price = pos 900;
}

tea_once : UniqueProducts (tea ∷ [])
tea_once = record { once = λ p. ground arith }

shop-IsSound : IsSound stocked_tables
shop-IsSound = record { products = tea_once; stocked = λ p row found. ground arith; messages = tt }

shop-IsBalanced : IsBalanced stocked_tables
unfolding pending
shop-IsBalanced = record {
  reservations = λ p row found. ground arith;
  settled = λ j o found. absurd (cc);
  positive = λ j o found. absurd (cc);
  ids = λ j. ground arith;
}

ordered :
    (create_order marshal.order_created drawn three_teas shop).1 ≡ ok (new_order drawn three_teas)
unfolding create_order begin annotate lift ◌>>=◌ pure exec commit rollback deferring_rollback
    reserve update_stock update_rows with_stock reserve_row affected create insert_order
    insert_unique insert_message insert new_row text_eq
ordered = refl

abbrev with_order : AppDatabase
with_order = serve_all marshal (creating drawn three_teas ∷ []) shop

serve_all-IsSound_example :
    ((serve_all marshal (creating drawn three_teas ∷ confirming (codes "o1") ∷ []) shop).transaction
      ≡ none)
    × IsSound
        (serve_all marshal (creating drawn three_teas ∷ confirming (codes "o1") ∷ []) shop).tables
serve_all-IsSound_example =
    serve_all-IsSound marshal (creating drawn three_teas ∷ confirming (codes "o1") ∷ []) shop refl
      shop-IsSound

abbrev ordering_and_confirming : List Request
ordering_and_confirming = creating drawn three_teas ∷ confirming (codes "o1") ∷ []

serve_all-IsBalanced_example :
    ((serve_all marshal ordering_and_confirming shop).transaction ≡ none)
    × IsSound (serve_all marshal ordering_and_confirming shop).tables
    × IsBalanced (serve_all marshal ordering_and_confirming shop).tables
serve_all-IsBalanced_example =
    serve_all-IsBalanced marshal ordering_and_confirming shop ((3, refl), (tt, tt)) refl
      shop-IsSound shop-IsBalanced

order-IsSound : IsSound with_order.tables
order-IsSound =
    (serve_all-IsSound marshal (creating drawn three_teas ∷ []) shop refl shop-IsSound).1

order_closed : with_order.transaction ≡ none
order_closed = (serve_all-IsSound marshal (creating drawn three_teas ∷ []) shop refl shop-IsSound).0

order_confirmed_now : (confirm_order marshal.order_confirmed (codes "o1") with_order).1 ≡ ok tt
unfolding serve_all serve create_order confirm_order begin annotate lift ◌>>=◌ pure exec query_pool
    commit rollback deferring_rollback reserve decrease update_stock update_rows with_stock
    reserve_row decrease_row affected create get_by_id update_status update_order insert_order
    insert_unique insert_message insert new_row text_eq
order_confirmed_now = refl

confirmed_once_example :
    let later =
      serve_all marshal
        (dispatching fetching ∷ [])
        (confirm_order marshal.order_confirmed (codes "o1") with_order).0 in
    ((confirm_order marshal.order_confirmed (codes "o1") later).0.tables ≡ later.tables)
    × ((confirm_order marshal.order_confirmed (codes "o1") later).1 ≢ ok tt)
confirmed_once_example =
    confirmed_once marshal (codes "o1") (dispatching fetching ∷ []) with_order order_closed
      order-IsSound order_confirmed_now

abbrev decode_order : Text → Result OrderConfirmedEvent
decode_order body = ok (record {
  order_id = codes "o1";
  user_id = codes "u1";
  product_id = codes "tea";
  quantity = pos 3;
})

shop-IsFaithful : IsFaithful stocked_tables
shop-IsFaithful = record {
  unique = record { once = λ c e. omega arith };
  confirmations = λ e. refl;
  credits = λ e. refl;
}

confirmed_exactly_once_example :
    tally
      (is_confirmation (7 ∷ []))
      (deliver_all decode_order
        (λ body. ok (record { user_id = []; email = []; name = [] }))
        (order_confirmed second_delivery ∷ [])
        (handle_order_confirmed decode_order first_delivery shop).0).tables.order_confirmations
    ≡ 1
unfolding handle_order_confirmed process_once is_processed_here complete_here is_processed complete
    insert_completion insert_confirmation begin annotate lift ◌>>=◌ pure exec commit rollback
    deferring_rollback insert_unique text_eq
confirmed_exactly_once_example =
    confirmed_exactly_once decode_order _ first_delivery (order_confirmed second_delivery ∷ []) shop
      refl shop-IsFaithful refl
