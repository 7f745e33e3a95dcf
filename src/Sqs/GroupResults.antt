-- ===== src/Sqs/GroupResults.antt =====
-- contrib/sqs/publisher.go: what the call for one queue makes of the results of `MultiBatchPublisher`.
use mathlib.Core.Path.{subst}
use o4x.Prelude.{
  ℕ, zero, suc, ◌≡◌, refl, sym, ap, ◌∙◌, inl, inr, Bool, true, false, some, List, [], ◌∷◌, Text,
  text_eq_refl, map, select, get_elem?, Bool-cases, if◌then◌else◌,
}
use o4x.Core.Errors.{Result, ok, err}
use o4x.Core.Model.{Outbox}
use o4x.Core.Repository.{PublishResult}
use o4x.Sqs.Messages.{SendMessageBatchOutput, SendMessageBatchRequestEntry, SqsClient, too_large}
use o4x.Sqs.Batch.{validated, entries_of, unless_failed}
use o4x.Sqs.Confirmations.{Unconfirmed}
use o4x.Sqs.BatchResults.{
  Says, outcome_of-Says, unless_failed-validated, validated-large, entries_of-empty,
}
use o4x.Sqs.MultiBatch.{
  blank, reject_oversized, queue_failed, queue_outcome, in_group, group_of, over_group, send_group,
  publish_batch_to_queue_with_lock,
}

reject_oversized-blank : (msg : Outbox) → reject_oversized msg (blank msg) ≡ validated msg
unfolding reject_oversized validated
reject_oversized-blank msg = elim (Bool-cases (too_large msg)) [
  | inl e ↦ rw e refl
  | inr e ↦ rw e refl
]

queue_outcome-Says :
    (url : Text) (a : Result SendMessageBatchOutput) (msg : Outbox)
    → too_large msg ≡ false
    → ((queue_outcome url a msg (validated msg)).outbox_id ≡ msg.id)
      × Says a msg (queue_outcome url a msg (validated msg))
unfolding queue_failed
queue_outcome-Says url (err e) msg fits =
    (unfold validated in refl, Says.undelivered fits refl refl (Unconfirmed.call_failed e refl))
queue_outcome-Says url (ok out) msg fits = outcome_of-Says (ok out) msg fits

pub get_elem?-map :
    {A B : Type 0} (f : A → B) (xs : List A) (i : ℕ) (x : A)
    → get_elem? xs i ≡ some x
    → get_elem? (map f xs) i ≡ some (f x)
get_elem?-map f [] i x h = absurd (cc)
get_elem?-map f (y ∷ xs) zero x h = let e : y ≡ x = cc h in ap (λ z. some (f z)) e
get_elem?-map f (y ∷ xs) (suc i) x h = get_elem?-map f xs i x h

get_elem?-select :
    {A : Type 0} (p : A → Bool) (xs : List A) (i : ℕ) (x : A)
    → get_elem? xs i ≡ some x
    → p x ≡ true
    → (j : ℕ) × (get_elem? (select p xs) j ≡ some x)
get_elem?-select p [] i x h t = absurd (cc)
get_elem?-select p (y ∷ xs) zero x h t = let e : y ≡ x = cc h in (0, rw (ap p e ∙ t) (ap some e))
get_elem?-select p (y ∷ xs) (suc i) x h t =
    let (j, k) = get_elem?-select p xs i x h t in
    elim (Bool-cases (p y)) [ inl e ↦ (suc j, rw e k) | inr e ↦ (j, rw e k) ]

module _ (router : Text → Text) where
  get_elem?-over_group :
      (f : Outbox → PublishResult → PublishResult) (url : Text) (msgs : List Outbox)
      (rs : List PublishResult) (i : ℕ) (msg : Outbox) (r : PublishResult)
      → get_elem? msgs i ≡ some msg
      → get_elem? rs i ≡ some r
      → get_elem? (over_group router f url msgs rs) i
        ≡ some (if in_group router url msg then f msg r else r)
  unfolding over_group
  get_elem?-over_group f url [] rs i msg r h k = absurd (cc)
  get_elem?-over_group f url (m ∷ msgs) [] i msg r h k = absurd (cc)
  get_elem?-over_group f url (m ∷ msgs) (x ∷ rs) zero msg r h k =
      let e : m ≡ msg = cc h in
      let e' : x ≡ r = cc k in
      ap (λ y. some (if in_group router url y then f y x else x)) e
      ∙ ap (λ y. some (if in_group router url msg then f msg y else y)) e'
  get_elem?-over_group f url (m ∷ msgs) (x ∷ rs) (suc i) msg r h k =
      get_elem?-over_group f url msgs rs i msg r h k

  -- The answer of the client to the one call for a queue.
  abbrev pub queue_answer :
      {Q : Type 0} → SqsClient Q → List Outbox → Text → Q → Result SendMessageBatchOutput
  queue_answer client msgs url q =
      (client.send_message_batch url (entries_of url (group_of router url msgs)) q).1

  module _ {Q : Type 0} (client : SqsClient Q) (msgs : List Outbox) (i : ℕ) (msg : Outbox)
      (here : get_elem? msgs i ≡ some msg) where
    abbrev own_url : Text
    own_url = router msg.event_type

    pub other_queue :
        (url : Text) (q : Q) (rs : List PublishResult) (r : PublishResult)
        → in_group router url msg ≡ false
        → get_elem? rs i ≡ some r
        → get_elem? (publish_batch_to_queue_with_lock router client url msgs q rs).1 i ≡ some r
    unfolding publish_batch_to_queue_with_lock
    other_queue url q rs r other k = by (entries_of url (group_of router url msgs))
      where
        rejected : get_elem? (over_group router reject_oversized url msgs rs) i ≡ some r
        rejected = get_elem?-over_group reject_oversized url msgs rs i msg r here k ∙ rw other refl

        by :
            (es : List SendMessageBatchRequestEntry)
            → get_elem?
                (send_group router client url msgs es q
                  (over_group router reject_oversized url msgs rs)).1
                i
              ≡ some r
        by [] = rejected
        by (e ∷ es) = get_elem?-over_group _ url msgs _ i msg r here rejected ∙ rw other refl

    pub own_queue :
        (q : Q) (rs : List PublishResult)
        → get_elem? rs i ≡ some (blank msg)
        → (r : PublishResult) × (get_elem?
              (publish_batch_to_queue_with_lock router client own_url msgs q rs).1
              i
            ≡ some r)
          × (r.outbox_id ≡ msg.id)
          × Says (queue_answer client msgs own_url q) msg r
    unfolding publish_batch_to_queue_with_lock group_of
    own_queue q rs k = by (entries_of own_url (group_of router own_url msgs)) refl
      where
        inside : in_group router own_url msg ≡ true
        inside = text_eq_refl own_url

        rejected :
            get_elem? (over_group router reject_oversized own_url msgs rs) i ≡ some (validated msg)
        rejected =
            get_elem?-over_group reject_oversized own_url msgs rs i msg (blank msg) here k
            ∙ rw inside (ap some (reject_oversized-blank msg))

        by :
            (es : List SendMessageBatchRequestEntry)
            → entries_of own_url (group_of router own_url msgs) ≡ es
            → (r : PublishResult) × (get_elem?
                  (send_group router client own_url msgs es q
                    (over_group router reject_oversized own_url msgs rs)).1
                  i
                ≡ some r)
              × (r.outbox_id ≡ msg.id)
              × Says (queue_answer client msgs own_url q) msg r
        by [] none_left =
            let (j, at) = get_elem?-select (in_group router own_url) msgs i msg here inside in
            let large =
              entries_of-empty own_url (group_of router own_url msgs) j msg none_left at in
            (
              validated msg,
              rejected,
              unfold validated in refl,
              Says.oversized large (unfold validated in refl) (validated-large msg large),
            )
        by (e ∷ es) some_left =
            let a = (client.send_message_batch own_url (e ∷ es) q).1 in
            let same : queue_answer client msgs own_url q ≡ a =
              ap (λ x. (client.send_message_batch own_url x q).1) some_left in
            let (id_same, says) =
              unless_failed-validated a (queue_outcome own_url a) msg
                (queue_outcome-Says own_url a msg) in
            (
              unless_failed (queue_outcome own_url a) msg (validated msg),
              get_elem?-over_group (unless_failed (queue_outcome own_url a)) own_url msgs _ i msg
                    (validated msg) here rejected
                  ∙ rw inside refl,
              id_same,
              subst (λ x. Says x msg (unless_failed (queue_outcome own_url a) msg (validated msg)))
                  (sym same) says,
            )
