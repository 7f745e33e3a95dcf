-- ===== src/Pgx/Keys.antt =====
-- schema/schema.go (`id UUID PRIMARY KEY`): the rows of a table have different keys, and what follows for
-- the rows that a fetch chooses.
use mathlib.Core.Option
use mathlib.Core.Path.{subst}
use o4x.Prelude.{
  ℕ, zero, suc, ◌≡◌, refl, sym, ap, ◌∙◌, ◌⊎◌, inl, inr, Bool, true, false, not, ◌&&◌, &&-eq-true,
  Option, none, some, [], ◌∷◌, ◌++◌, Text, text_eq, text_eq_iff, text_eq_refl, if◌then◌else◌,
  Bool-cases, Option-cases, arith, any_of, map,
}
use o4x.Core.Model.{Outbox}
use o4x.Pgx.Table.{Table, has_id, find_row, change, update_where, earlier, oldest, oldest_of}
use o4x.Pgx.Lookup.{KeepsId, find_row-update_where}

abbrev pub UniqueIds : Table → Type 0
UniqueIds [] = Unit
UniqueIds (r ∷ t) = (find_row r.id t ≡ none) × UniqueIds t

pub UniqueIds-update_where :
    (p : Outbox → Bool) (f : Outbox → Outbox)
    → KeepsId f
    → (t : Table) → UniqueIds t
    → UniqueIds (update_where p f t)
unfolding update_where
UniqueIds-update_where p f keep [] u = tt
UniqueIds-update_where p f keep (r ∷ t) u = (absent, UniqueIds-update_where p f keep t u.1)
  where
    same : (change p f r).id ≡ r.id
    same = elim (Bool-cases (p r)) [ inl e ↦ rw e (keep r) | inr e ↦ rw e refl ]

    absent : find_row (change p f r).id (update_where p f t) ≡ none
    absent = rw same (find_row-update_where p f keep r.id t ∙ ap (Option.map (change p f)) u.0)

find_row-append_none :
    (j : Text) (t : Table) (r : Outbox)
    → find_row j t ≡ none
    → has_id j r ≡ false
    → find_row j (t ++ r ∷ []) ≡ none
find_row-append_none j [] r h e = rw e
find_row-append_none j (q ∷ t) r h e = ground (arith, find_row-append_none j t r)

ids_differ : (q r : Outbox) → has_id r.id q ≡ false → has_id q.id r ≡ false
ids_differ q r h = elim (Bool-cases (text_eq r.id q.id)) [
  | inl e ↦
      absurd
        (cc (sym h ∙ (ap (λ i. text_eq q.id i) ((text_eq_iff r.id q.id).0 e) ∙ text_eq_refl q.id)))
  | inr e ↦ e
]

pub UniqueIds-append :
    (t : Table) (r : Outbox) → UniqueIds t → find_row r.id t ≡ none → UniqueIds (t ++ r ∷ [])
UniqueIds-append [] r u h = (refl, tt)
UniqueIds-append (q ∷ t) r u h =
    let parts : (has_id r.id q ≡ false) × (find_row r.id t ≡ none) = ground arith in
    (find_row-append_none q.id t r u.0 (ids_differ q r parts.0), UniqueIds-append t r u.1 parts.1)

-- A row found in the tail is found in the whole.
find_row-behind :
    (q : Outbox) (t : Table) (r : Outbox)
    → find_row q.id t ≡ none
    → find_row r.id t ≡ some r
    → find_row r.id (q ∷ t) ≡ some r
find_row-behind q t r none_there h = elim (Bool-cases (has_id r.id q)) [
  | inl e ↦
      absurd (cc (sym none_there ∙ (ap (λ j. find_row j t) ((text_eq_iff q.id r.id).0 e) ∙ h)))
  | inr e ↦ rw e h
]

find_row-head : (q : Outbox) (t : Table) → find_row q.id (q ∷ t) ≡ some q
find_row-head q t = rw (text_eq_refl q.id) refl

-- The choice between the head and the oldest of the tail.
earlier_cases :
    (q : Outbox) (rest : Option Outbox) (r : Outbox)
    → some (earlier q rest) ≡ some r
    → (r ≡ q) ⊎ (rest ≡ some r)
earlier_cases q none r h = inl cc
earlier_cases q (some s) r h = ground arith

oldest-cons :
    (p : Outbox → Bool) (q : Outbox) (t : Table) (r : Outbox)
    → oldest p (q ∷ t) ≡ some r
    → ((r ≡ q) × (p q ≡ true)) ⊎ (oldest p t ≡ some r)
unfolding oldest
oldest-cons p q t r h = elim (Bool-cases (p q)) [
  | inl e ↦ with_head e (earlier_cases q (oldest p t) r (chosen (p q) true e ∙ h))
  | inr e ↦ inr (chosen (p q) false e ∙ h)
]
  where
    chosen :
        (b c : Bool)
        → b ≡ c
        → (if c then some (earlier q (oldest p t)) else oldest p t)
          ≡ (if b then some (earlier q (oldest p t)) else oldest p t)
    chosen b c e = rw e refl

    with_head :
        p q ≡ true
        → (r ≡ q) ⊎ (oldest p t ≡ some r)
        → ((r ≡ q) × (p q ≡ true)) ⊎ (oldest p t ≡ some r)
    with_head e (inl same) = inl (same, e)
    with_head e (inr there) = inr there

-- A row that a fetch takes is in the table and passes the test.
pub oldest-find_row :
    (p : Outbox → Bool) (t : Table) (r : Outbox)
    → UniqueIds t
    → oldest p t ≡ some r
    → (find_row r.id t ≡ some r) × (p r ≡ true)
oldest-find_row p [] r u h = unfold oldest in absurd (cc)
oldest-find_row p (q ∷ t) r u h = elim (oldest-cons p q t r h) [
  | inl (same, e) ↦
      (subst (λ x. find_row x.id (q ∷ t) ≡ some x) (sym same) (find_row-head q t), ap p same ∙ e)
  | inr there ↦
      let (found, passes) = oldest-find_row p t r u.1 there in
      (find_row-behind q t r u.0 found, passes)
]

oldest_of-none :
    (n : ℕ) (p : Outbox → Bool) (t : Table) → oldest p t ≡ none → oldest_of (suc n) p t ≡ []
unfolding oldest_of
oldest_of-none n p t h = rw (h, oldest_of)

oldest_of-some :
    (n : ℕ) (p : Outbox → Bool) (t : Table) (r : Outbox)
    → oldest p t ≡ some r
    → oldest_of (suc n) p t ≡ r ∷ oldest_of n (λ q. p q && not (has_id r.id q)) t
unfolding oldest_of
oldest_of-some n p t r h = rw (h, oldest_of)

-- So do the rows of a batch.
pub oldest_of-passes :
    (n : ℕ) (p : Outbox → Bool) (t : Table) (q : Outbox)
    → UniqueIds t
    → find_row q.id t ≡ some q
    → any_of (text_eq q.id) (map (λ r. r.id) (oldest_of n p t)) ≡ true
    → p q ≡ true
oldest_of-passes zero p t q u there h = unfold oldest_of in absurd (cc)
oldest_of-passes (suc n) p t q u there h = elim (Option-cases (oldest p t)) [
  | inl e ↦
      absurd (
        cc (ap (λ l. any_of (text_eq q.id) (map (λ r. r.id) l)) (sym (oldest_of-none n p t e)) ∙ h))
  | inr (r, e) ↦
      let h' =
        ap (λ l. any_of (text_eq q.id) (map (λ r. r.id) l)) (sym (oldest_of-some n p t r e)) ∙ h in
      elim (Bool-cases (text_eq q.id r.id)) [
        | inl same ↦ is_r r (oldest-find_row p t r u e) ((text_eq_iff q.id r.id).0 same)
        | inr other ↦
            let rest =
              oldest_of-passes n (λ q. p q && not (has_id r.id q)) t q u there
                (ap
                    (λ b.
                      if b
                      then true
                      else any_of (text_eq q.id)
                          (map (λ r. r.id) (oldest_of n (λ q. p q && not (has_id r.id q)) t)))
                    (sym other)
                  ∙ h') in
            (&&-eq-true (p q) (not (has_id r.id q)) rest).0
      ]
]
  where
    is_r : (r : Outbox) → (find_row r.id t ≡ some r) × (p r ≡ true) → q.id ≡ r.id → p q ≡ true
    is_r r (found, passes) same =
        let again : some q ≡ some r = sym there ∙ (ap (λ j. find_row j t) same ∙ found) in
        let here : q ≡ r = cc again in ap p here ∙ passes
