-- ===== src/Sqs/BatchResults.antt =====
-- contrib/sqs/publisher.go: what `PublishBatch` answers about each message.
use mathlib.Core.Path.{subst}
use o4x.Prelude.{
  ℕ, zero, suc, ◌≡◌, refl, ap, ◌∙◌, inl, inr, Bool, true, false, not, Option, none, some, List, [],
  ◌∷◌, Text, map, select, get_elem?, Bool-cases, if◌then◌else◌,
}
use o4x.Core.Errors.{nil, Result, ok, err, is_nil, new_permanent_error}
use o4x.Core.Model.{Outbox}
use o4x.Core.Repository.{PublishResult}
use o4x.Sqs.Messages.{
  SendMessageBatchOutput, build_batch_entry, SqsClient, too_large, payload_error,
}
use o4x.Sqs.Confirmations.{Confirms, Unconfirmed, last_of-none, last_of-last}
use o4x.Sqs.Batch.{
  validated, entries_of, last_of, batch_failed, batch_answered, answered_by, unless_failed,
  outcome_of,
}

-- What a result says about its message, given the answer of the client.
pub data Says (a : Result SendMessageBatchOutput) (msg : Outbox) (r : PublishResult) : Type 0 where
  oversized : too_large msg ≡ true → r.success ≡ false → r.error ≡ payload_error msg → Says a msg r
  delivered :
      too_large msg ≡ false
      → r.success ≡ true
      → r.error ≡ nil
      → Confirms a msg.id r.message_id
      → Says a msg r
  undelivered :
      too_large msg ≡ false
      → r.success ≡ false
      → is_nil r.error ≡ false
      → Unconfirmed a msg.id
      → Says a msg r

pub is_nil-payload_error : (msg : Outbox) → is_nil (payload_error msg) ≡ false
unfolding payload_error new_permanent_error
is_nil-payload_error msg = refl

pub validated-large :
    (msg : Outbox) → too_large msg ≡ true → (validated msg).error ≡ payload_error msg
unfolding validated
validated-large msg h = rw h refl

validated-fits : (msg : Outbox) → too_large msg ≡ false → (validated msg).error ≡ nil
unfolding validated
validated-fits msg h = rw h refl

-- A message that fits, after the answer.
pub outcome_of-Says :
    (a : Result SendMessageBatchOutput) (msg : Outbox)
    → too_large msg ≡ false
    → ((outcome_of a msg (validated msg)).outbox_id ≡ msg.id)
      × Says a msg (outcome_of a msg (validated msg))
unfolding batch_failed batch_answered
outcome_of-Says (err e) msg fits =
    (unfold validated in refl, Says.undelivered fits refl refl (Unconfirmed.call_failed e refl))
outcome_of-Says (ok out) msg fits =
    split (last_of msg.id out.successful) (last_of msg.id out.failed) refl
  where
    confirmed :
        (m : Text) → last_of {A = Text} msg.id out.successful ≡ some m → Confirms (ok out) msg.id m
    confirmed m e =
        let (former, later, split, last) = last_of-last msg.id m out.successful e in
        Confirms.in_answer former later refl split last

    missing : last_of {A = Text} msg.id out.successful ≡ none → Unconfirmed (ok out) msg.id
    missing e = Unconfirmed.not_named refl (last_of-none msg.id out.successful e)

    split :
        (s : Option Text) (f : Option (Text × Text))
        → last_of msg.id out.successful ≡ s
        → ((answered_by msg s f (validated msg)).outbox_id ≡ msg.id)
          × Says (ok out) msg (answered_by msg s f (validated msg))
    split (some m) f e = (
      unfold validated in refl,
      Says.delivered fits refl (validated-fits msg fits) (confirmed m e),
    )
    split none (some f) e = (unfold validated in refl, Says.undelivered fits refl refl (missing e))
    split none none e = (unfold validated in refl, Says.undelivered fits refl refl (missing e))

-- An oversized message is answered before the call, and the rest by what follows it.
pub unless_failed-validated :
    (a : Result SendMessageBatchOutput) (f : Outbox → PublishResult → PublishResult) (msg : Outbox)
    → (too_large msg ≡ false
        → ((f msg (validated msg)).outbox_id ≡ msg.id) × Says a msg (f msg (validated msg)))
    → ((unless_failed f msg (validated msg)).outbox_id ≡ msg.id)
      × Says a msg (unless_failed f msg (validated msg))
unless_failed-validated a f msg if_fits = elim (Bool-cases (too_large msg)) [
  | inl large ↦
      let error = validated-large msg large in
      let failed : is_nil (validated msg).error ≡ false =
        ap is_nil error ∙ is_nil-payload_error msg in
      rw failed (unfold validated in refl, Says.oversized large (unfold validated in refl) error)
  | inr fits ↦
      let empty : is_nil (validated msg).error ≡ true = ap is_nil (validated-fits msg fits) in
      rw empty (if_fits fits)
]

pub unless_failed-Says :
    (a : Result SendMessageBatchOutput) (msg : Outbox)
    → ((unless_failed (outcome_of a) msg (validated msg)).outbox_id ≡ msg.id)
      × Says a msg (unless_failed (outcome_of a) msg (validated msg))
unless_failed-Says a msg = unless_failed-validated a (outcome_of a) msg (outcome_of-Says a msg)

-- Without entries, every message was too large.
pub entries_of-empty :
    (url : Text) (msgs : List Outbox) (i : ℕ) (msg : Outbox)
    → entries_of url msgs ≡ []
    → get_elem? msgs i ≡ some msg
    → too_large msg ≡ true
unfolding entries_of
entries_of-empty url [] i msg none_left h = absurd (cc)
entries_of-empty url (m ∷ msgs) i msg none_left h = elim (Bool-cases (too_large m)) [
  | inl large ↦
      at (λ j k. entries_of-empty url msgs j msg (subst empty_after large none_left) k) i h large
  | inr fits ↦ absurd (nonempty (subst empty_after fits none_left))
]
  where
    empty_after : Bool → Type 0
    empty_after b =
        map (build_batch_entry url) (
          if not b
          then m ∷ select (λ x. not (too_large x)) msgs
          else select (λ x. not (too_large x)) msgs)
        ≡ []

    nonempty : empty_after false → ⊥
    nonempty e = cc

    at :
        ((j : ℕ) → get_elem? msgs j ≡ some msg → too_large msg ≡ true)
        → (k : ℕ) → get_elem? (m ∷ msgs) k ≡ some msg
        → too_large m ≡ true
        → too_large msg ≡ true
    at later zero k large = let e : m ≡ msg = cc k in subst (λ x. too_large x ≡ true) e large
    at later (suc j) k large = later j k

module _ {Q : Type 0} (client : SqsClient Q) (queue_url : Text) where
  -- The client's answer about the messages that fit.
  abbrev pub answer : List Outbox → Q → Result SendMessageBatchOutput
  answer msgs q = (client.send_message_batch queue_url (entries_of queue_url msgs) q).1
