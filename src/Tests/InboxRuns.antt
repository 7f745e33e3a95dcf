-- ===== src/Tests/InboxRuns.antt =====
-- contrib/pgx/: the inbox and the options of the repositories.
use o4x.Prelude.{
  ℕ, suc, ◌*◌, ◌≡◌, ◌⊎◌, refl, true, false, some, none, List, [], ◌∷◌, codes, text_eq, arith,
}
use o4x.Core.Int64.{pos}
use o4x.Core.Errors.{ok}
use o4x.Pgx.Calls.{up}
use o4x.Pgx.Inbox
use o4x.Pgx.Inbox.{InboxDatabase, insert_completion, delete_completed}
use o4x.Pgx.InboxKeys.{is_some, IsUnique, remembered}
use o4x.Pgx.InboxMemory.{
  InboxAct, asking, completing, cleaning, performed, perform_inbox, memory_after,
  is_processed-performed,
}
use o4x.Pgx.Config.{is_valid, OutboxRepositoryFields, InboxRepositoryFields}
use o4x.Pgx.Configs.{
  ConfigOption, outbox_table, threshold, names_valid, last_outbox_name, last_inbox_name,
  build_outbox, build_inbox, build_decides,
}

abbrev pub empty_inbox : InboxDatabase
empty_inbox = record {
  inbox = [];
  calls = 0;
  schedule = λ n. record { link = up; clock = 1000 * suc n };
}

pub empty-IsUnique : IsUnique []
empty-IsUnique = record { once = λ c e. omega arith }

abbrev acts : List InboxAct
acts =
    asking (codes "orders") (7 ∷ [])
    ∷ completing (codes "orders") (7 ∷ [])
    ∷ completing (codes "orders") (7 ∷ [])
    ∷ cleaning 5000
    ∷ []

done_once :
    (performed acts empty_inbox).inbox
    ≡ record { consumer_name = codes "orders"; event_id = 7 ∷ []; completed_at = 2000 } ∷ []
unfolding perform_inbox Inbox.is_processed Inbox.complete Inbox.delete_inbox_older_than
    insert_completion delete_completed text_eq
done_once = refl

is_processed-performed_example :
    IsUnique (performed acts empty_inbox).inbox
    × ((Inbox.is_processed (codes "orders") (7 ∷ []) (performed acts empty_inbox)).1
        ≡ ok (
            is_some (
              memory_after acts empty_inbox.schedule 0
                (codes "orders")
                (7 ∷ [])
                (remembered [] (codes "orders") (7 ∷ [])))))
unfolding perform_inbox Inbox.is_processed Inbox.complete Inbox.delete_inbox_older_than
is_processed-performed_example =
    is_processed-performed acts empty_inbox (codes "orders") (7 ∷ []) empty-IsUnique refl

abbrev pool : ℕ
pool = 1

abbrev options : List ConfigOption
options = outbox_table (codes "app.events") ∷ threshold (pos 1000000000) ∷ []

build_decides_example :
    ((names_valid options ≡ true)
      × (r : OutboxRepositoryFields ℕ) × (build_outbox pool options ≡ some r)
      × (r.table_name ≡ last_outbox_name (codes "outbox") options)
      × (is_valid r.table_name ≡ true)
      × (s : InboxRepositoryFields ℕ) × (build_inbox pool options ≡ some s)
      × (s.table_name ≡ last_inbox_name (codes "consumer_inbox") options)
      × (is_valid s.table_name ≡ true))
    ⊎ ((names_valid options ≡ false)
        × (build_outbox pool options ≡ none)
        × (build_inbox pool options ≡ none))
build_decides_example = build_decides pool options
