-- ===== src/System/BatchRows.antt =====
-- contrib/pgx/repo.go, what each update of a batch makes of the status of one row.
use mathlib.Core.Path.{subst}
use mathlib.Core.Option
use o4x.Prelude.{
  ◌≡◌, refl, sym, ap, ◌∙◌, ◌⊎◌, inl, inr, Bool, true, false, some, List, [], ◌∷◌, Text, text_eq,
  text_eq_iff, any_of, arith, Bool-cases, if◌then◌else◌, &&-eq-true,
}
use o4x.Core.Errors.{GoError, ok, err}
use o4x.Core.Model.{Outbox, OutboxStatus, published, failed, dead}
use o4x.Pgx.Table.{Table, has_id, find_row, change, update_where}
use o4x.Pgx.Calls.{Database, now_call}
use o4x.Pgx.Rows.{publishing_with, publish_row, kill_row, fail_row}
use o4x.Pgx.Outbox.{update_to_failed, update_to_dead, update_batch_to_published, publishing_among}
use o4x.Pgx.Lookup.{KeepsId, find_row-update_where, find_row-id, answered-table}

-- The row `j` has a status with `S`.
pub record RowIs (S : OutboxStatus → Type 0) (j : Text) (t : Table) : Type 0 where
  pub row : Outbox
  pub found : find_row j t ≡ some row
  pub state : S row.status

-- A failure of the message `i` may make the row `j` FAILED or DEAD only where `S` permits it.
abbrev pub Harmless : (OutboxStatus → Type 0) → Text → Text → Type 0
Harmless S j i = (S failed × S dead) ⊎ (text_eq i j ≡ false)

other_row :
    (i j : Text) (r : Outbox)
    → text_eq i j ≡ false
    → has_id j r ≡ true
    → publishing_with i r ≡ true
    → true ≡ false
other_row i j r other here there =
    let e : r.id ≡ i = (text_eq_iff r.id i).0 (&&-eq-true _ _ there).0 in
    sym here ∙ (ap (λ x. text_eq x j) e ∙ other)

unless_failing :
    {A : Type 0} (P : Table → Type 0) (b : Bool) (e : GoError) (x y : Table × A)
    → P x.0
    → (if b then err e else ok x) ≡ ok y
    → P y.0
unless_failing P true e x y h k = absurd (cc)
unless_failing P false e x y h k = let same : x ≡ y = cc k in subst (λ z. P z.0) same h

any_of-flip :
    (x j : Text) (is : List Text)
    → text_eq x j ≡ true
    → any_of (text_eq x) is ≡ true
    → any_of (λ k. text_eq k j) is ≡ true
any_of-flip x j [] e h = h
any_of-flip x j (i ∷ is) e h = elim (Bool-cases (text_eq x i)) [
  | inl here ↦
      let there : text_eq i j ≡ true = ap (λ k. text_eq k j) (sym ((text_eq_iff x i).0 here)) ∙ e in
      rw there refl
  | inr other ↦
      let rest : any_of (text_eq x) is ≡ true = ground (arith) in
      ground (arith, any_of-flip x j is e rest)
]

module _ {S : OutboxStatus → Type 0} {j : Text} where
  RowIs-update_where :
      (p : Outbox → Bool) (f : Outbox → Outbox)
      → KeepsId f
      → ((r : Outbox) → has_id j r ≡ true → p r ≡ true → S (f r).status)
      → (t : Table) → RowIs S j t
      → RowIs S j (update_where p f t)
  RowIs-update_where p f keep h t r = record {
    row = change p f r.row;
    found = find_row-update_where p f keep j t ∙ ap (Option.map (change p f)) r.found;
    state = by (p r.row) refl;
  }
    where
      by : (b : Bool) → p r.row ≡ b → S (change p f r.row).status
      by true e = rw e (h r.row (find_row-id j t r.row r.found) e)
      by false e = rw e r.state

  pub RowIs-update_to_dead :
      (i message : Text) (db : Database)
      → Harmless S j i
      → RowIs S j db.table
      → RowIs S j (update_to_dead i message db).0.table
  unfolding update_to_dead kill_row
  RowIs-update_to_dead i message db safe r =
      answered-table (RowIs S j) db.table (now_call db).link _ r (λ t' a e.
        subst (RowIs S j) (cc e) (
          RowIs-update_where (publishing_with i) (kill_row (now_call db) message) (λ q. refl)
            (λ q here there. by safe q here there) db.table r))
    where
      by : Harmless S j i → (q : Outbox) → has_id j q ≡ true → publishing_with i q ≡ true → S dead
      by (inl h) q here there = h.1
      by (inr other) q here there = absurd (cc (other_row i j q other here there))

  pub RowIs-update_to_failed :
      (i message : Text) (db : Database)
      → Harmless S j i
      → RowIs S j db.table
      → RowIs S j (update_to_failed i message db).0.table
  unfolding update_to_failed fail_row
  RowIs-update_to_failed i message db safe r =
      answered-table (RowIs S j) db.table (now_call db).link _ r (λ t' a e.
        unless_failing (RowIs S j) _ _ _ (t', a)
          (RowIs-update_where (publishing_with i) (fail_row (now_call db) db message) (λ q. refl)
            (λ q here there. by safe q here there) db.table r)
          e)
    where
      by : Harmless S j i → (q : Outbox) → has_id j q ≡ true → publishing_with i q ≡ true → S failed
      by (inl h) q here there = h.0
      by (inr other) q here there = absurd (cc (other_row i j q other here there))

  pub RowIs-update_batch_to_published :
      (is : List Text) (db : Database)
      → S published ⊎ (any_of (λ i. text_eq i j) is ≡ false)
      → RowIs S j db.table
      → RowIs S j (update_batch_to_published is db).0.table
  unfolding update_batch_to_published publish_row
  RowIs-update_batch_to_published [] db safe r = r
  RowIs-update_batch_to_published (i ∷ is) db safe r =
      answered-table (RowIs S j) db.table (now_call db).link _ r (λ t' a e.
        subst (RowIs S j) (cc e) (
          RowIs-update_where (publishing_among (i ∷ is)) (publish_row (now_call db)) (λ q. refl)
            (λ q here there. by safe q here there) db.table r))
    where
      by :
          S published ⊎ (any_of (λ k. text_eq k j) (i ∷ is) ≡ false)
          → (q : Outbox) → has_id j q ≡ true
          → publishing_among (i ∷ is) q ≡ true
          → S published
      by (inl h) q here there = h
      by (inr none_of) q here there =
          let among = any_of-flip q.id j (i ∷ is) here (&&-eq-true _ _ there).0 in
          absurd (cc (sym none_of ∙ among))
