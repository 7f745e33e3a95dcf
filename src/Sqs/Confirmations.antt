-- ===== src/Sqs/Confirmations.antt =====
-- contrib/sqs/publisher.go: what the server's answer to a batch says of one id, and what the publishers find in it.
use o4x.Prelude.{
  ◌≡◌, refl, ap, ◌∙◌, inl, inr, Option, none, some, List, [], ◌∷◌, ◌++◌, Text, text_eq, text_eq_iff,
  tally, arith, Bool-cases, if◌then◌else◌,
}
use o4x.Core.Errors.{GoError, Result, ok, err}
use o4x.Sqs.Messages.{SendMessageBatchOutput}
use o4x.Sqs.Batch.{last_of}

-- An answer confirms a message under the id `j` if its successful entries are some, then the entry of `j` with the
-- id `m` of the sent message, then others, none of which is an entry of `j`.
pub data Confirms (a : Result SendMessageBatchOutput) (j m : Text) : Type 0 where
  in_answer :
      {out : SendMessageBatchOutput} (former later : List (Text × Text))
      → a ≡ ok out
      → out.successful ≡ former ++ (j, m) ∷ later
      → tally (λ x. text_eq x.0 j) later ≡ 0
      → Confirms a j m

-- It does not if the call failed, or no successful entry has the id `j`.
pub data Unconfirmed (a : Result SendMessageBatchOutput) (j : Text) : Type 0 where
  call_failed : (e : GoError) → a ≡ err e → Unconfirmed a j
  not_named :
      {out : SendMessageBatchOutput}
      → a ≡ ok out
      → tally (λ x. text_eq x.0 j) out.successful ≡ 0
      → Unconfirmed a j

pub last_of-none :
    (j : Text) (xs : List (Text × Text))
    → last_of {A = Text} j xs ≡ none
    → tally (λ x. text_eq x.0 j) xs ≡ 0
unfolding last_of
last_of-none j [] h = refl
last_of-none j ((i, x) ∷ rest) h = ground (arith, last_of-none j rest)

pub last_of-last :
    (j m : Text) (xs : List (Text × Text))
    → last_of {A = Text} j xs ≡ some m
    → (former : List (Text × Text)) × (later : List (Text × Text)) × (xs ≡ former ++ (j, m) ∷ later)
      × (tally (λ x. text_eq x.0 j) later ≡ 0)
unfolding last_of
last_of-last j m [] h = absurd (cc)
last_of-last j m ((i, x) ∷ rest) h = by (last_of {A = Text} j rest) refl h (last_of-last j m rest)
  where
    by :
        (o : Option Text)
        → last_of {A = Text} j rest ≡ o
        → (elim o [ some y ↦ some y | none ↦ if text_eq i j then some x else none ]) ≡ some m
        → (last_of {A = Text} j rest ≡ some m
            → (former : List (Text × Text)) × (later : List (Text × Text)) × (rest
                ≡ former ++ (j, m) ∷ later)
              × (tally (λ x. text_eq x.0 j) later ≡ 0))
        → (former : List (Text × Text)) × (later : List (Text × Text)) × ((i, x) ∷ rest
            ≡ former ++ (j, m) ∷ later)
          × (tally (λ x. text_eq x.0 j) later ≡ 0)
    by (some y) e k ih =
        let (former, later, split, last) = ih (e ∙ k) in
        ((i, x) ∷ former, later, ap (λ r. (i, x) ∷ r) split, last)
    by none e k ih = elim (Bool-cases (text_eq i j)) [
      | inr other ↦ absurd (cc (k, other))
      | inl own ↦
          let same : i ≡ j = (text_eq_iff i j).0 own in
          let sent : x ≡ m = ground arith in
          ([], rest, ap (λ p. p ∷ rest) (cc (same, sent)), last_of-none j rest e)
    ]
