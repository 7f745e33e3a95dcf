-- ===== src/Tests/StaleRun.antt =====
-- A worker that holds a message since its first attempt, while its row is on the last one.
use mathlib.Core.Path.{refl}
use o4x.Prelude.{◌≡◌, some, List, [], ◌∷◌, codes, arith, text_eq}
use o4x.Core.Errors.{GoError, external, is_retryable}
use o4x.Core.Model.{Outbox, publishing, failed}
use o4x.Pgx.Table.{find_row}
use o4x.Pgx.Calls.{Database}
use o4x.Pgx.Operations.{Operation, fetching, reviving, requeuing, perform_all}
use o4x.System.StaleWorker.{stale_worker_strands, left}
use o4x.Tests.Samples.{order_row, one_row, down, setup_with, world_of}

abbrev snapshot : Outbox
snapshot = record order_row { status = publishing }

abbrev in_flight_again : Outbox
in_flight_again = record order_row { status = publishing; attempt_count = 2 }

abbrev last_attempt : Database
last_attempt = record one_row { table = in_flight_again ∷ [] }

abbrev timeout : GoError
timeout = external (codes "timeout")

abbrev later : List Operation
later = reviving ∷ requeuing ∷ fetching ∷ []

stale_worker_strands_example :
    (x : Outbox) × (find_row
        (0 ∷ [])
        (perform_all later
          (left
            (setup_with down)
            snapshot
            in_flight_again
            timeout
            (world_of last_attempt)).store).table
      ≡ some x)
    × (x.status ≡ failed)
    × (x.attempt_count ≡ x.max_attempts)
unfolding text_eq is_retryable
stale_worker_strands_example =
    stale_worker_strands (setup_with down) snapshot in_flight_again timeout (world_of last_attempt)
      later refl refl (refl, tt) refl
      (record { in_flight = refl; attempt_left = omega arith; last_one = refl }) refl
