-- ===== src/Pgx/InboxKeys.antt =====
-- contrib/pgx/inbox_repo.go: what the table remembers of an event, and how the statements change that.
use o4x.Prelude.{
  ℕ, suc, ◌+◌, ◌≤◌, ◌≡◌, ◌⊎◌, inl, inr, refl, sym, ap, ◌∙◌, Bool, true, false, not, ◌&&◌, Option,
  none, some, List, [], ◌∷◌, ◌++◌, Text, text_eq, text_eq_iff, if◌then◌else◌, ltb, select, tally,
  any_of, first_of?, Bool-cases, &&-eq-true, arith,
}
use o4x.Core.Inbox.{ConsumerInbox}
use o4x.Pgx.Inbox.{
  InboxTable, InboxCall, same_event, completion, insert_completion, completed_before,
  delete_completed,
}

abbrev pub is_some : {A : Type 0} → Option A → Bool
is_some none = false
is_some (some a) = true

abbrev time_of : Option ConsumerInbox → Option ℕ
time_of none = none
time_of (some r) = some r.completed_at

-- When the event was completed, if it was.
unfoldable pub remembered : InboxTable → Text → Text → Option ℕ
remembered t c e = time_of (first_of? (same_event c e) t)

-- One row for an event.
pub record IsUnique (t : InboxTable) : Type 0 where
  pub once : (c e : Text) → tally (same_event c e) t ≤ 1

module _ {A : Type 0} (p : A → Bool) where
  pub any_of-first_of? : (xs : List A) → any_of p xs ≡ is_some (first_of? p xs)
  any_of-first_of? [] = refl
  any_of-first_of? (x ∷ xs) = ground (arith, any_of-first_of? xs)

  pub tally-append :
      (xs : List A) (y : A)
      → tally p (xs ++ y ∷ []) ≡ (if p y then suc (tally p xs) else tally p xs)
  tally-append [] y = refl
  tally-append (x ∷ xs) y = ground (arith, tally-append xs y)

  pub tally-none : (xs : List A) → any_of p xs ≡ false → tally p xs ≡ 0
  tally-none [] h = refl
  tally-none (x ∷ xs) h = ground (arith, tally-none xs)

  tally-select : (q : A → Bool) (xs : List A) → tally p (select q xs) ≤ tally p xs
  tally-select q [] = omega arith
  tally-select q (x ∷ xs) = ground (arith, tally-select q xs)

  none-select : (q : A → Bool) (xs : List A) → tally p xs ≡ 0 → first_of? p (select q xs) ≡ none
  none-select q [] h = refl
  none-select q (x ∷ xs) h = ground (arith, none-select q xs)

is_some-time_of : (o : Option ConsumerInbox) → is_some o ≡ is_some (time_of o)
is_some-time_of none = refl
is_some-time_of (some r) = refl

pub any_of-remembered :
    (t : InboxTable) (c e : Text) → any_of (same_event c e) t ≡ is_some (remembered t c e)
unfolding remembered
any_of-remembered t c e =
    any_of-first_of? (same_event c e) t ∙ is_some-time_of (first_of? (same_event c e) t)

-- What `insert_completion` makes of a time, and `delete_completed`.
abbrev pub or_now : ℕ → Option ℕ → Option ℕ
or_now now none = some now
or_now now (some t) = some t

abbrev pub unless_old : ℕ → ℕ → Option ℕ → Option ℕ
unless_old age now none = none
unless_old age now (some t) = if ltb (t + age) now then none else some t

some_time :
    (o : Option ConsumerInbox) (now : ℕ) → is_some o ≡ true → or_now now (time_of o) ≡ time_of o
some_time none now h = absurd (cc)
some_time (some r) now h = refl

module _ (call : InboxCall) (c e : Text) where
  -- What a completed event makes of the memory.
  abbrev pub completed_one : Text → Text → Option ℕ → Option ℕ
  completed_one c' e' o = if text_eq c c' && text_eq e e' then or_now call.clock o else o

  already :
      (t : InboxTable) (c' e' : Text)
      → any_of (same_event c e) t ≡ true
      → (text_eq c c' && text_eq e e') ≡ true
      → or_now call.clock (remembered t c' e') ≡ remembered t c' e'
  unfolding remembered
  already t c' e' h same =
      let (x, y) = &&-eq-true (text_eq c c') (text_eq e e') same in
      let here : any_of (same_event c' e') t ≡ true =
        rw (sym ((text_eq_iff c c').0 x), sym ((text_eq_iff e e').0 y)) h in
      some_time (first_of? (same_event c' e') t) call.clock
        (sym (any_of-first_of? (same_event c' e') t) ∙ here)

  appended :
      (p : ConsumerInbox → Bool) (x : ConsumerInbox) (t : InboxTable)
      → time_of (first_of? p (t ++ x ∷ []))
        ≡ (if p x then or_now x.completed_at (time_of (first_of? p t)) else time_of (first_of? p t))
  appended p x [] = ground arith
  appended p x (r ∷ t) = ground (arith, appended p x t)

  pub remembered-insert_completion :
      (t : InboxTable) (c' e' : Text)
      → remembered (insert_completion call c e t) c' e' ≡ completed_one c' e' (remembered t c' e')
  unfolding insert_completion remembered
  remembered-insert_completion t c' e' =
      by (Bool-cases (any_of (same_event c e) t)) (Bool-cases (text_eq c c' && text_eq e e'))
    where
      by :
          (any_of (same_event c e) t ≡ true) ⊎ (any_of (same_event c e) t ≡ false)
          → ((text_eq c c' && text_eq e e') ≡ true) ⊎ ((text_eq c c' && text_eq e e') ≡ false)
          → remembered (insert_completion call c e t) c' e'
            ≡ completed_one c' e' (remembered t c' e')
      by (inl h) (inl same) = rw (h, same, insert_completion) (sym (already t c' e' h same))
      by (inl h) (inr other) = rw (h, other, insert_completion) refl
      by (inr h) _ = rw (h, insert_completion) (appended (same_event c' e') (completion call c e) t)

  pub insert_completion-IsUnique :
      (t : InboxTable) → IsUnique t → IsUnique (insert_completion call c e t)
  unfolding insert_completion
  insert_completion-IsUnique t u = elim (Bool-cases (any_of (same_event c e) t)) [
    | inl h ↦ rw (h, insert_completion) u
    | inr h ↦ rw (h, insert_completion) (record { once = added h })
  ]
    where
      added :
          any_of (same_event c e) t ≡ false
          → (c' e' : Text) → tally (same_event c' e') (t ++ completion call c e ∷ []) ≤ 1
      added h c' e' = elim (Bool-cases (text_eq c c' && text_eq e e')) [
        | inl same ↦
            let (x, y) = &&-eq-true (text_eq c c') (text_eq e e') same in
            let gone : any_of (same_event c' e') t ≡ false =
              rw (sym ((text_eq_iff c c').0 x), sym ((text_eq_iff e e').0 y)) h in
            ground (
              arith,
              tally-append (same_event c' e') t (completion call c e),
              tally-none (same_event c' e') t gone,
            )
        | inr other ↦
            ground (arith, tally-append (same_event c' e') t (completion call c e), u.once c' e')
      ]

module _ (age : ℕ) (call : InboxCall) where
  kept :
      (p : ConsumerInbox → Bool) (t : InboxTable)
      → tally p t ≤ 1
      → time_of (first_of? p (select (λ r. not (completed_before age call.clock r)) t))
        ≡ unless_old age call.clock (time_of (first_of? p t))
  kept p [] h = refl
  kept p (r ∷ t) h = elim (Bool-cases (p r)) [
    | inl here ↦ elim (Bool-cases (completed_before age call.clock r)) [
      | inl old ↦ rw (here, old) (ap time_of (none-select p _ t (ground arith)))
      | inr new ↦ rw (here, new) (rw here refl)
    ]
    | inr there ↦ elim (Bool-cases (completed_before age call.clock r)) [
      | inl old ↦ rw (there, old) (kept p t (ground arith))
      | inr new ↦ rw (there, new) (rw there (kept p t (ground arith)))
    ]
  ]

  pub remembered-delete_completed :
      (t : InboxTable) (c e : Text)
      → IsUnique t
      → remembered (delete_completed age call t) c e ≡ unless_old age call.clock (remembered t c e)
  unfolding remembered delete_completed
  remembered-delete_completed t c e u = kept (same_event c e) t (u.once c e)

  pub delete_completed-IsUnique :
      (t : InboxTable) → IsUnique t → IsUnique (delete_completed age call t)
  unfolding delete_completed
  delete_completed-IsUnique t u = record {
    once = λ c e. omega (
      arith,
      tally-select (same_event c e) (λ r. not (completed_before age call.clock r)) t,
      u.once c e,
    );
  }
