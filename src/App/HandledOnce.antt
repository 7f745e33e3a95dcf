-- ===== src/App/HandledOnce.antt =====
-- examples/app/internal/consumer/order_handler.go and user_handler.go over contrib/pgx/inbox_repo.go: the records of the
-- events and the inbox change together.
use o4x.Prelude.{
  suc, ◌≤◌, ◌≡◌, refl, sym, ap, ◌∙◌, Bool, true, false, ◌&&◌, List, [], ◌∷◌, ◌++◌, Text, codes,
  text_eq, text_eq_refl, any_of, tally, arith, if◌then◌else◌,
}
use o4x.Core.Errors.{ok}
use o4x.Pgx.Inbox.{InboxCall, InboxTable, same_event, completion, insert_completion}
use o4x.Pgx.InboxKeys.{IsUnique, insert_completion-IsUnique, tally-append}
use o4x.App.InboxAnswers.{insert_completion_known}
use o4x.App.Store.{OrderConfirmation, WelcomeCredit, Tables, AppDatabase}
use o4x.App.Events.{OrderConfirmedEvent}
use o4x.App.Actions.{now_of}
use o4x.App.StockRules.{values_fit-ok, if_ok-ok}
use o4x.App.CreateOrder.{insert_unique-ok}
use o4x.App.Handlers.{
  UserRegistration, is_confirmation, is_credit, with_confirmations, with_credits, confirmation,
  credit, insert_confirmation, insert_credit,
}
use o4x.App.InboxRules.{known}
use o4x.App.ProcessOnce.{Fresh}

-- The records of the handlers are those of the events that the inbox knows, one for each.
pub record IsFaithful (t : Tables) : Type 0 where
  pub unique : IsUnique t.inbox
  pub confirmations :
      (e : Text)
      → tally (is_confirmation e) t.order_confirmations
        ≡ tally (same_event (codes "order") e) t.inbox
  pub credits :
      (e : Text)
      → tally (is_credit e) t.user_welcome_credits ≡ tally (same_event (codes "user") e) t.inbox

-- The event of a delivery that is processed leaves its record, and is known from then on.
pub record Remembers (t t' : Tables) : Type 0 where
  pub faithful : IsFaithful t → IsFaithful t'
  pub kept : (c e : Text) → known c e t ≡ true → known c e t' ≡ true

pub Remembers-same : (t t' : Tables) → t' ≡ t → Remembers t t'
Remembers-same t t' e = rw e (record { faithful = λ f. f; kept = λ c e k. k })

pub tally-insert_completion :
    (call : InboxCall) (name j c e : Text) (inbox : InboxTable)
    → any_of (same_event name j) inbox ≡ false
    → tally (same_event c e) (insert_completion call name j inbox) ≡ (
        if text_eq name c && text_eq j e
        then suc (tally (same_event c e) inbox)
        else tally (same_event c e) inbox)
unfolding insert_completion
tally-insert_completion call name j c e inbox h =
    rw h (tally-append (same_event c e) inbox (completion call name j))

pub tally_known : {A : Type 0} (q : A → Bool) (xs : List A) → any_of q xs ≡ true → 1 ≤ tally q xs
tally_known q [] h = absurd (cc)
tally_known q (x ∷ xs) h = ground (arith, tally_known q xs)

known_tally : {A : Type 0} (q : A → Bool) (xs : List A) → 1 ≤ tally q xs → any_of q xs ≡ true
known_tally q [] h = absurd (omega arith)
known_tally q (x ∷ xs) h = ground (arith, known_tally q xs)

pub known-insert_completion :
    (call : InboxCall) (name j c e : Text) (inbox : InboxTable)
    → any_of (same_event name j) inbox ≡ false
    → any_of (same_event c e) inbox ≡ true
    → any_of (same_event c e) (insert_completion call name j inbox) ≡ true
known-insert_completion call name j c e inbox h k =
    known_tally (same_event c e) (insert_completion call name j inbox) (
      ground (
        arith,
        tally-insert_completion call name j c e inbox h,
        tally_known (same_event c e) inbox k,
      ))

-- One more record, and one more event in the inbox.
tally-recorded :
    {A : Type 0} (q : A → Bool) (rows : List A) (row : A) (call : InboxCall) (name j e : Text)
    (inbox : InboxTable)
    → q row ≡ text_eq j e
    → any_of (same_event name j) inbox ≡ false
    → tally q rows ≡ tally (same_event name e) inbox
    → tally q (rows ++ row ∷ []) ≡ tally (same_event name e) (insert_completion call name j inbox)
tally-recorded q rows row call name j e inbox own h same = ground (
  arith,
  tally-append q rows row,
  own,
  text_eq_refl name,
  tally-insert_completion call name j name e inbox h,
  same,
)

-- Completing an event does not concern the other consumers.
tally-other :
    (call : InboxCall) (name j c e : Text) (inbox : InboxTable)
    → text_eq name c ≡ false
    → any_of (same_event name j) inbox ≡ false
    → tally (same_event c e) (insert_completion call name j inbox) ≡ tally (same_event c e) inbox
tally-other call name j c e inbox other h =
    ground (arith, other, tally-insert_completion call name j c e inbox h)

abbrev pub add_confirmation : OrderConfirmation → Tables → Tables
add_confirmation row t = record t { order_confirmations = t.order_confirmations ++ row ∷ [] }

abbrev pub add_credit : WelcomeCredit → Tables → Tables
add_credit row t = record t { user_welcome_credits = t.user_welcome_credits ++ row ∷ [] }

-- Tables with one more record, of the event.
abbrev pub Confirmed : Text → Tables → Tables → Type 0
Confirmed j before t =
    (row : OrderConfirmation) × (row.event_id ≡ j) × (t ≡ add_confirmation row before)

abbrev pub Credited : Text → Tables → Tables → Type 0
Credited j before t = (row : WelcomeCredit) × (row.event_id ≡ j) × (t ≡ add_credit row before)

module _ (j : Text) (before : Tables) (db : AppDatabase) (t t' : Tables) (a : Unit {0})
    (same : t ≡ before) where
  pub insert_confirmation-Confirmed :
      (event : OrderConfirmedEvent)
      → insert_confirmation j event db t ≡ ok (t', a)
      → Confirmed j before t'
  unfolding insert_confirmation
  insert_confirmation-Confirmed event h =
      let row = confirmation j event (now_of db) in
      let (rows, e, made) = if_ok-ok (with_confirmations t) _ _ (values_fit-ok _ _ (t', a) h) in
      let appended = (insert_unique-ok _ row t.order_confirmations rows e).1 in
      (
        row,
        refl,
        sym (ap (λ x. x.0) made)
            ∙ (ap (λ x. record t { order_confirmations = x }) appended
                ∙ ap (add_confirmation row) same),
      )

  pub insert_credit-Credited :
      (event : UserRegistration) → insert_credit j event db t ≡ ok (t', a) → Credited j before t'
  unfolding insert_credit
  insert_credit-Credited event h =
      let row = credit j event (now_of db) in
      let (rows, e, made) = if_ok-ok (with_credits t) _ _ h in
      let appended = (insert_unique-ok _ row t.user_welcome_credits rows e).1 in
      (
        row,
        refl,
        sym (ap (λ x. x.0) made)
            ∙ (ap (λ x. record t { user_welcome_credits = x }) appended ∙ ap (add_credit row) same),
      )

consumers_differ :
    (text_eq (codes "order") (codes "user") ≡ false)
    × (text_eq (codes "user") (codes "order") ≡ false)
unfolding text_eq
consumers_differ = (refl, refl)

module _ (before after : Tables) (j : Text) where
  pub Confirmed-Remembers :
      Fresh (codes "order") j before (Confirmed j before) after → Remembers before after
  Confirmed-Remembers f =
      let (row, own, made) = f.completed.prior in
      let after_is = f.completed.rest ∙ ap (complete_with f.completed.call) made in
      rw after_is (record {
        kept = λ c e.
            known-insert_completion f.completed.call (codes "order") j c e before.inbox f.unknown;
        faithful = λ t. record {
          unique =
              insert_completion-IsUnique f.completed.call (codes "order") j before.inbox t.unique;
          confirmations = λ e.
              tally-recorded (is_confirmation e) before.order_confirmations row f.completed.call
                (codes "order") j e before.inbox (ap (λ i. text_eq i e) own) f.unknown
                (t.confirmations e);
          credits = λ e.
              t.credits e
              ∙ sym (
                  tally-other f.completed.call (codes "order") j (codes "user") e before.inbox
                    consumers_differ.0 f.unknown);
        };
      })
    where
      complete_with : InboxCall → Tables → Tables
      complete_with call t = record t { inbox = insert_completion call (codes "order") j t.inbox }

  pub Credited-Remembers :
      Fresh (codes "user") j before (Credited j before) after → Remembers before after
  Credited-Remembers f =
      let (row, own, made) = f.completed.prior in
      let after_is = f.completed.rest ∙ ap (complete_with f.completed.call) made in
      rw after_is (record {
        kept = λ c e.
            known-insert_completion f.completed.call (codes "user") j c e before.inbox f.unknown;
        faithful = λ t. record {
          unique =
              insert_completion-IsUnique f.completed.call (codes "user") j before.inbox t.unique;
          credits = λ e.
              tally-recorded (is_credit e) before.user_welcome_credits row f.completed.call
                (codes "user") j e before.inbox (ap (λ i. text_eq i e) own) f.unknown (t.credits e);
          confirmations = λ e.
              t.confirmations e
              ∙ sym (
                  tally-other f.completed.call (codes "user") j (codes "order") e before.inbox
                    consumers_differ.1 f.unknown);
        };
      })
    where
      complete_with : InboxCall → Tables → Tables
      complete_with call t = record t { inbox = insert_completion call (codes "user") j t.inbox }

-- A processed event is in the inbox.
pub known_completed :
    (name j : Text) (before : Tables) (R : Tables → Type 0) (t : Tables)
    → Fresh name j before R t
    → known name j t ≡ true
known_completed name j before R t f =
    rw f.completed.rest (insert_completion_known f.completed.call name j f.completed.earlier.inbox)
