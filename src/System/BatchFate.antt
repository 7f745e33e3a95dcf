-- ===== src/System/BatchFate.antt =====
-- core/batch_dispatcher.go over contrib/pgx/repo.go: what one batch makes of the row of each of its messages.
use mathlib.Core.Path.{subst}
use o4x.Prelude.{
  ℕ, ◌≡◌, refl, ap, ◌⊎◌, inl, inr, Bool, true, false, Option, none, some, List, [], ◌∷◌, Text,
  text_eq, get_elem?, any_of, length, Bool-cases,
}
use o4x.Core.Model.{Outbox, OutboxStatus, publishing, published, failed, dead}
use o4x.Core.Repository.{PublishResult}
use o4x.Core.Hooks.{call_on_batch_publish_start}
use o4x.Core.Worker.{World, note}
use o4x.Core.BatchWorker.{
  BatchDispatcher, Settled, counted, settle, mark_batch, finish_batch, publish_messages,
}
use o4x.Pgx.Calls.{Database}
use o4x.Pgx.Outbox.{batch_outbox_repository}
use o4x.System.BatchRows.{RowIs, Harmless, RowIs-update_batch_to_published}
use o4x.System.BatchLoop.{pgx_batch, Succeeded, ids, settle-Looped}

-- With the failures harmless, and its own publication too where it is sent, the row keeps `S` to the end of the batch.
module _ {P : Type 0} (d : BatchDispatcher Database P) (S : OutboxStatus → Type 0) (j : Text) where
  counted-some :
      (n : ℕ) (o : Option (Settled Database P)) (out : World Database P × ℕ)
      → counted (pgx_batch d) n o ≡ some out
      → (y : Settled Database P) × (o ≡ some y) × ((finish_batch (pgx_batch d) y, n) ≡ out)
  counted-some n none out h = absurd (cc)
  counted-some n (some y) out h = (y, refl, cc h)

  RowIs-finish_batch :
      (x : Settled Database P)
      → S published ⊎ (any_of (λ i. text_eq i j) (ids x.1.0) ≡ false)
      → RowIs S j x.0.store.table
      → RowIs S j (finish_batch (pgx_batch d) x).store.table
  unfolding finish_batch mark_batch pgx_batch batch_outbox_repository
  RowIs-finish_batch (w, ([], bad)) safe r = r
  RowIs-finish_batch (w, (m ∷ sent, bad)) safe r =
      RowIs-update_batch_to_published (ids (m ∷ sent)) w.store safe r

  publish_messages-RowIs :
      (msgs : List Outbox) (w : World Database P) (out : World Database P × ℕ)
      → let rs = (d.publisher.publish_batch msgs w.broker).1 in
        ((i : ℕ) (m : Outbox) (r : PublishResult)
          → get_elem? msgs i ≡ some m
          → get_elem? rs i ≡ some r
          → r.success ≡ false
          → Harmless S j m.id)
        → S published ⊎ ¬ Succeeded msgs rs j
        → RowIs S j w.store.table
        → publish_messages (pgx_batch d) msgs w ≡ some out
        → RowIs S j out.0.store.table
  unfolding publish_messages pgx_batch
  publish_messages-RowIs msgs w out safe ends r h =
      let results = d.publisher.publish_batch msgs w.broker in
      let w₂ = record (note w (call_on_batch_publish_start d.hooks msgs)) { broker = results.0 } in
      let (y, e, made) =
        counted-some (length msgs) (settle (pgx_batch d) msgs results.1 w₂) out h in
      let (kept, sent) = settle-Looped d S j msgs results.1 w₂ y safe r e in
      subst (λ o. RowIs S j o.0.store.table) made (RowIs-finish_batch y (at_end y sent ends) kept)
    where
      at_end :
          (y : Settled Database P)
          → (any_of (λ i. text_eq i j) (ids y.1.0) ≡ true
              → Succeeded msgs (d.publisher.publish_batch msgs w.broker).1 j)
          → S published ⊎ ¬ Succeeded msgs (d.publisher.publish_batch msgs w.broker).1 j
          → S published ⊎ (any_of (λ i. text_eq i j) (ids y.1.0) ≡ false)
      at_end y sent (inl h) = inl h
      at_end y sent (inr never) = elim (Bool-cases (any_of (λ i. text_eq i j) (ids y.1.0))) [
        | inl k ↦ absurd (never (sent k))
        | inr k ↦ inr k
      ]

-- What a batch may make of the row of a message, by the message's result.
abbrev pub Honest : Bool → OutboxStatus → Type 0
Honest true s = (s ≡ publishing) ⊎ (s ≡ published)
Honest false s = (s ≡ publishing) ⊎ ((s ≡ failed) ⊎ (s ≡ dead))

-- No two of the messages have the same id.
abbrev pub Distinct : List Outbox → Type 0
Distinct msgs =
    (a b : ℕ) (x y : Outbox)
    → get_elem? msgs a ≡ some x
    → get_elem? msgs b ≡ some y
    → text_eq x.id y.id ≡ true
    → a ≡ b

module _ {P : Type 0} (d : BatchDispatcher Database P) (msgs : List Outbox)
    (distinct : Distinct msgs) (w : World Database P) (out : World Database P × ℕ) (i : ℕ)
    (m : Outbox) (r : PublishResult) (at_message : get_elem? msgs i ≡ some m)
    (at_result : get_elem? (d.publisher.publish_batch msgs w.broker).1 i ≡ some r) where
  same_result :
      (k : ℕ) (x : Outbox) (a : PublishResult)
      → get_elem? msgs k ≡ some x
      → get_elem? (d.publisher.publish_batch msgs w.broker).1 k ≡ some a
      → text_eq x.id m.id ≡ true
      → a.success ≡ r.success
  same_result k x a at_x at_a e =
      let same : k ≡ i = distinct k i x m at_x at_message e in
      let again = ap (get_elem? (d.publisher.publish_batch msgs w.broker).1) same in
      cc (again, at_a, at_result)

  -- When a batch of messages with distinct ids is published without a panic of the goroutine, the row of each message, which
  -- was PUBLISHING, ends by the message's result: after a success it is PUBLISHED or still PUBLISHING, and never FAILED
  -- or DEAD; after a failure it is FAILED, DEAD or still PUBLISHING, and never PUBLISHED. It is
  -- so whatever statements fail or lose their answers, and whatever becomes of the other messages.
  pub publish_messages-Honest :
      RowIs (λ s. s ≡ publishing) m.id w.store.table
      → publish_messages (pgx_batch d) msgs w ≡ some out
      → RowIs (Honest r.success) m.id out.0.store.table
  publish_messages-Honest start done = by r.success refl
    where
      begun : (b : Bool) → RowIs (Honest b) m.id w.store.table
      begun true = record { row = start.row; found = start.found; state = inl start.state }
      begun false = record { row = start.row; found = start.found; state = inl start.state }

      by : (b : Bool) → r.success ≡ b → RowIs (Honest b) m.id out.0.store.table
      by true e =
          publish_messages-RowIs d (Honest true) m.id msgs w out
            (λ k x a at_x at_a bad. elim (Bool-cases (text_eq x.id m.id)) [
              | inl here ↦ absurd (cc (bad, same_result k x a at_x at_a here, e))
              | inr other ↦ inr other
            ])
            (inl (inr refl)) (begun true) done
      by false e =
          publish_messages-RowIs d (Honest false) m.id msgs w out
            (λ k x a at_x at_a bad. inl (inr (inl refl), inr (inr refl)))
            (inr (λ s. absurd (
              cc (
                s.success,
                same_result s.index s.message s.result s.at_message s.at_result s.same_id,
                e,
              ))))
            (begun false) done
