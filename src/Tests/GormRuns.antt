-- ===== src/Tests/GormRuns.antt =====
-- contrib/gorm/ with gorm as calls that send their statements.
use o4x.Prelude.{◌-◌, ◌≡◌, refl, List, [], ◌∷◌, codes, tally, first_of?, arith}
use o4x.Core.Errors.{Result, ok}
use o4x.Core.Model.{Outbox, OutboxInsertParams, published}
use o4x.Core.Inbox.{ConsumerInbox}
use o4x.Pgx.Calls.{Call, Database, query, now_call}
use o4x.Pgx.Outbox
use o4x.Pgx.Inbox
use o4x.Pgx.Inbox.{InboxCall, InboxDatabase, inbox_query}
use o4x.Gorm.Orm.{Orm, IsOrm}
use o4x.Gorm.Inbox as GormInbox
use o4x.Gorm.InboxSame.{gorm_inbox-pgx_inbox}
use o4x.Gorm.Outbox as GormOutbox
use o4x.Gorm.Outbox.{Creator, create_statement}
use o4x.Gorm.OutboxSame.{IsKeyed, gorm_outbox-pgx_outbox}
use o4x.Gorm.Insert.{IsCreator, at_clock, defaulted, as_given, gorm_insert-pgx_insert}
use o4x.Tests.Samples.{no_rows, one_row, order_created}
use o4x.Tests.InboxRuns.{empty_inbox, empty-IsUnique}

abbrev sending :
    {Row Call D : Type 0}
    → ((A : Type 0) → (Call → List Row → Result (List Row × A)) → D → D × Result A)
    → Orm Row Call D
sending query = record {
  exec = query _;
  count = λ p. query _ (λ call t. ok (t, tally p t));
  first = λ p. query _ (λ call t. ok (t, first_of? p t));
  scan = query _;
  scan_all = query _;
}

abbrev inbox_orm : Orm ConsumerInbox InboxCall InboxDatabase
inbox_orm = sending (λ A. inbox_query {A = A})

inbox_orm-IsOrm : IsOrm inbox_orm (λ db. db.inbox) (λ A. inbox_query {A = A})
inbox_orm-IsOrm = record {
  exec_law = λ stmt db. refl;
  count_law = λ p db. refl;
  first_law = λ p db h. refl;
  scan_law = λ stmt db. refl;
  scan_all_law = λ stmt db. refl;
}

gorm_inbox-pgx_inbox_example :
    (GormInbox.is_processed inbox_orm (codes "orders") (7 ∷ []) empty_inbox
      ≡ Inbox.is_processed (codes "orders") (7 ∷ []) empty_inbox)
    × (GormInbox.complete inbox_orm (codes "orders") (7 ∷ []) empty_inbox
        ≡ Inbox.complete (codes "orders") (7 ∷ []) empty_inbox)
    × (GormInbox.get_by_event_id inbox_orm (codes "orders") (7 ∷ []) empty_inbox
        ≡ Inbox.get_by_event_id (codes "orders") (7 ∷ []) empty_inbox)
    × (GormInbox.delete_inbox_older_than inbox_orm 5 empty_inbox
        ≡ Inbox.delete_inbox_older_than 5 empty_inbox)
gorm_inbox-pgx_inbox_example =
    gorm_inbox-pgx_inbox inbox_orm inbox_orm-IsOrm (codes "orders") (7 ∷ []) 5 empty_inbox
      empty-IsUnique

abbrev outbox_orm : Orm Outbox Call Database
outbox_orm = sending (λ A. query {A = A})

outbox_orm-IsOrm : IsOrm outbox_orm (λ db. db.table) (λ A. query {A = A})
outbox_orm-IsOrm = record {
  exec_law = λ stmt db. refl;
  count_law = λ p db. refl;
  first_law = λ p db h. refl;
  scan_law = λ stmt db. refl;
  scan_all_law = λ stmt db. refl;
}

one_row-IsKeyed : IsKeyed one_row.table
one_row-IsKeyed = record { by_id = λ j. ground arith; by_key = λ event_type key. ground arith }

gorm_outbox-pgx_outbox_example :
    (GormOutbox.fetch_and_lock_to_publishing outbox_orm one_row
      ≡ Outbox.fetch_and_lock_to_publishing one_row)
    × (GormOutbox.fetch_lock_and_mark_publishing outbox_orm 2 one_row
        ≡ Outbox.fetch_lock_and_mark_publishing 2 one_row)
    × (GormOutbox.update_to_published outbox_orm (0 ∷ []) one_row
        ≡ Outbox.update_to_published (0 ∷ []) one_row)
    × (GormOutbox.update_to_failed outbox_orm (0 ∷ []) (codes "timeout") one_row
        ≡ Outbox.update_to_failed (0 ∷ []) (codes "timeout") one_row)
    × (GormOutbox.update_to_dead outbox_orm (0 ∷ []) (codes "timeout") one_row
        ≡ Outbox.update_to_dead (0 ∷ []) (codes "timeout") one_row)
    × (GormOutbox.update_batch_to_published outbox_orm ((0 ∷ []) ∷ []) one_row
        ≡ Outbox.update_batch_to_published ((0 ∷ []) ∷ []) one_row)
    × (GormOutbox.requeue_failed outbox_orm one_row ≡ Outbox.requeue_failed one_row)
    × (GormOutbox.revive_stuck_publishing outbox_orm one_row
        ≡ Outbox.revive_stuck_publishing one_row)
    × (GormOutbox.get_by_id outbox_orm (0 ∷ []) one_row ≡ Outbox.get_by_id (0 ∷ []) one_row)
    × (GormOutbox.get_by_idempotency_key outbox_orm
          (codes "order.created")
          (codes "order-1")
          one_row
        ≡ Outbox.get_by_idempotency_key (codes "order.created") (codes "order-1") one_row)
    × (GormOutbox.delete_older_than outbox_orm (published ∷ []) 5 one_row
        ≡ Outbox.delete_older_than (published ∷ []) 5 one_row)
gorm_outbox-pgx_outbox_example =
    gorm_outbox-pgx_outbox outbox_orm outbox_orm-IsOrm (0 ∷ []) (codes "timeout")
      (codes "order.created") (codes "order-1") 2 5 ((0 ∷ []) ∷ []) (published ∷ []) one_row
      one_row-IsKeyed

-- An application whose clock is a second behind.
abbrev creator : Creator
creator = record {
  now = λ call. call.clock - 1000000;
  create = λ m db. query (create_statement ((now_call db).clock - 1000000) m) db;
}

creator-IsCreator : IsCreator creator
creator-IsCreator = record { create_law = λ m db. refl }

abbrev no_limit : OutboxInsertParams
no_limit = record order_created { max_attempts = 0 }

gorm_insert-pgx_insert_example :
    ((GormOutbox.insert creator no_limit no_rows).0.table
      ≡ (Outbox.insert (defaulted no_limit) (at_clock 0 no_rows)).0.table)
    × ((GormOutbox.insert creator no_limit no_rows).1
        ≡ as_given no_limit (Outbox.insert (defaulted no_limit) (at_clock 0 no_rows)).1)
gorm_insert-pgx_insert_example = gorm_insert-pgx_insert creator creator-IsCreator no_limit no_rows
