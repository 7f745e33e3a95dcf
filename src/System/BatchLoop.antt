-- ===== src/System/BatchLoop.antt =====
-- core/batch_dispatcher.go over contrib/pgx/repo.go: the loop over the results of a batch and the rows it changes.
use mathlib.Core.Path.{subst}
use o4x.Prelude.{
  ℕ, suc, ◌≡◌, refl, sym, ◌∙◌, inl, inr, Bool, true, false, not, ◌||◌, Option, none, some, List, [],
  ◌∷◌, map, Text, text_eq, get_elem?, any_of, Bool-cases,
}
use o4x.Core.Errors.{GoError, is_nil, is_retryable}
use o4x.Core.Model.{Outbox, OutboxStatus, will_exceed_max_attempts_after_failure}
use o4x.Core.Repository.{PublishResult}
use o4x.Core.Worker.{World}
use o4x.Core.BatchWorker.{
  BatchDispatcher, Settled, with_sent, with_failure, handle_batch_failure, settle,
}
use o4x.Pgx.Calls.{Database}
use o4x.Pgx.Outbox.{batch_outbox_repository, outbox_repository}
use o4x.System.BatchRows.{RowIs, Harmless, RowIs-update_to_dead, RowIs-update_to_failed}

-- The batch dispatcher with the repository on PostgreSQL.
unfoldable pub pgx_batch : {P : Type 0} → BatchDispatcher Database P → BatchDispatcher Database P
pgx_batch d = record d { repo = batch_outbox_repository }

-- The message with the id `j` whose result is a success.
pub record Succeeded (msgs : List Outbox) (rs : List PublishResult) (j : Text) : Type 0 where
  pub index : ℕ
  pub message : Outbox
  pub result : PublishResult
  pub at_message : get_elem? msgs index ≡ some message
  pub at_result : get_elem? rs index ≡ some result
  pub success : result.success ≡ true
  pub same_id : text_eq message.id j ≡ true

Succeeded-later :
    (m : Outbox) (r : PublishResult) (msgs : List Outbox) (rs : List PublishResult) (j : Text)
    → Succeeded msgs rs j
    → Succeeded (m ∷ msgs) (r ∷ rs) j
Succeeded-later m r msgs rs j s = record {
  index = suc s.index;
  message = s.message;
  result = s.result;
  at_message = s.at_message;
  at_result = s.at_result;
  success = s.success;
  same_id = s.same_id;
}

abbrev pub ids : List Outbox → List Text
ids = map (λ m. m.id)

module _ {P : Type 0} (d : BatchDispatcher Database P) (S : OutboxStatus → Type 0) (j : Text) where
  with_sent-some :
      (m : Outbox) (o : Option (Settled Database P)) (x : Settled Database P)
      → with_sent (pgx_batch d) m o ≡ some x
      → (y : Settled Database P) × (o ≡ some y) × ((y.0, (m ∷ y.1.0, y.1.1)) ≡ x)
  with_sent-some m none x h = absurd (cc)
  with_sent-some m (some y) x h = (y, refl, cc h)

  with_failure-some :
      (o : Option (Settled Database P)) (x : Settled Database P)
      → with_failure (pgx_batch d) o ≡ some x
      → (y : Settled Database P) × (o ≡ some y) × ((y.0, (y.1.0, suc y.1.1)) ≡ x)
  with_failure-some none x h = absurd (cc)
  with_failure-some (some y) x h = (y, refl, cc h)

  RowIs-handle_batch_failure :
      (m : Outbox) (e : GoError) (w : World Database P)
      → Harmless S j m.id
      → RowIs S j w.store.table
      → RowIs S j (handle_batch_failure (pgx_batch d) m e w).store.table
  unfolding handle_batch_failure pgx_batch batch_outbox_repository outbox_repository
  RowIs-handle_batch_failure m e w safe r =
      elim (Bool-cases (not (is_retryable e) || will_exceed_max_attempts_after_failure m)) [
        | inl over ↦ rw over (RowIs-update_to_dead m.id _ w.store safe r)
        | inr again ↦ rw again (RowIs-update_to_failed m.id _ w.store safe r)
      ]

  -- What the loop over the results leaves, and which messages it counts as sent.
  abbrev pub Looped : List Outbox → List PublishResult → Settled Database P → Type 0
  Looped msgs rs x =
      RowIs S j x.0.store.table
      × (any_of (λ i. text_eq i j) (ids x.1.0) ≡ true → Succeeded msgs rs j)

  Looped-end :
      (msgs : List Outbox) (rs : List PublishResult) (w : World Database P) (x : Settled Database P)
      → RowIs S j w.store.table
      → ◌≡◌ {A = Option (Settled Database P)} (some (w, ([], 0))) (some x)
      → Looped msgs rs x
  Looped-end msgs rs w x r h =
      let e : ◌≡◌ {A = Settled Database P} (w, ([], 0)) x = cc h in
      subst (Looped msgs rs) e (r, λ (k : false ≡ true). absurd (cc k))

  pub settle-Looped :
      (msgs : List Outbox) (rs : List PublishResult) (w : World Database P) (x : Settled Database P)
      → ((i : ℕ) (m : Outbox) (r : PublishResult)
          → get_elem? msgs i ≡ some m
          → get_elem? rs i ≡ some r
          → r.success ≡ false
          → Harmless S j m.id)
      → RowIs S j w.store.table
      → settle (pgx_batch d) msgs rs w ≡ some x
      → Looped msgs rs x
  unfolding settle
  settle-Looped [] [] w x safe r h = Looped-end [] [] w x r h
  settle-Looped (m ∷ msgs) [] w x safe r h = Looped-end (m ∷ msgs) [] w x r h
  settle-Looped [] (a ∷ rs) w x safe r h = absurd (cc)
  settle-Looped (m ∷ msgs) (a ∷ rs) w x safe r h =
      by a.success refl (is_nil a.error) h
        (λ w' r' y. settle-Looped msgs rs w' y (λ i. safe (suc i)) r')
    where
      by :
          (b : Bool)
          → a.success ≡ b
          → (c : Bool)
          → ◌≡◌ {A = Option (Settled Database P)}
              (elim b [
                | true ↦ with_sent (pgx_batch d) m (settle (pgx_batch d) msgs rs w)
                | false ↦ elim c [
                  | true ↦ none
                  | false ↦ with_failure (pgx_batch d) (
                      settle (pgx_batch d) msgs rs (handle_batch_failure (pgx_batch d) m a.error w))
                ]
              ])
              (some x)
          → ((w' : World Database P)
              → RowIs S j w'.store.table
              → (y : Settled Database P) → settle (pgx_batch d) msgs rs w' ≡ some y
              → Looped msgs rs y)
          → Looped (m ∷ msgs) (a ∷ rs) x
      by true e c h ih =
          let (y, e', made) = with_sent-some m (settle (pgx_batch d) msgs rs w) x h in
          let (kept, sent) = ih w r y e' in
          subst (Looped (m ∷ msgs) (a ∷ rs)) made (
            kept,
            λ k. elim (Bool-cases (text_eq m.id j)) [
              | inl here ↦ record {
                index = 0;
                message = m;
                result = a;
                at_message = refl;
                at_result = refl;
                success = e;
                same_id = here;
              }
              | inr other ↦ Succeeded-later m a msgs rs j (sent (sym (rw other refl) ∙ k))
            ],
          )
      by false e true h ih = absurd (cc)
      by false e false h ih =
          let w' = handle_batch_failure (pgx_batch d) m a.error w in
          let (y, e', made) = with_failure-some (settle (pgx_batch d) msgs rs w') x h in
          let (kept, sent) =
            ih w' (RowIs-handle_batch_failure m a.error w (safe 0 m a refl refl e) r) y e' in
          subst (Looped (m ∷ msgs) (a ∷ rs)) made
            (kept, λ k. Succeeded-later m a msgs rs j (sent k))
