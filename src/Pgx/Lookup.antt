-- ===== src/Pgx/Lookup.antt =====
-- contrib/pgx/repo.go: what a statement does to the row with a given primary key.
use mathlib.Core.Option
use o4x.Prelude.{
  ◌≡◌, refl, ap, inl, inr, Bool, true, some, [], ◌∷◌, ◌++◌, Text, text_eq, Bool-cases, arith,
}
use o4x.Core.Errors.{Result, ok, err}
use o4x.Core.Model.{Outbox}
use o4x.Pgx.Table.{Table, has_id, find_row, change, update_where}
use o4x.Pgx.Calls.{Link, up, refused, dropped, answered}

-- An update of rows that keeps their keys.
abbrev pub KeepsId : (Outbox → Outbox) → Type 0
KeepsId f = (r : Outbox) → (f r).id ≡ r.id

has_id-change :
    (p : Outbox → Bool) (f : Outbox → Outbox)
    → KeepsId f
    → (j : Text) (r : Outbox) → has_id j (change p f r) ≡ has_id j r
has_id-change p f keep j r = elim (Bool-cases (p r)) [
  | inl e ↦ rw e (ap (λ i. text_eq i j) (keep r))
  | inr e ↦ rw e refl
]

-- The row is changed where it stands.
pub find_row-update_where :
    (p : Outbox → Bool) (f : Outbox → Outbox)
    → KeepsId f
    → (j : Text) (t : Table)
    → find_row j (update_where p f t) ≡ Option.map (change p f) (find_row j t)
unfolding update_where
find_row-update_where p f keep j [] = refl
find_row-update_where p f keep j (r ∷ t) = elim (Bool-cases (has_id j r)) [
  | inl e ↦ rw (has_id-change p f keep j r, e) refl
  | inr e ↦ rw (has_id-change p f keep j r, e) (find_row-update_where p f keep j t)
]

-- A row behind others of other keys.
pub find_row-append :
    (j : Text) (t u : Table) (r : Outbox) → find_row j t ≡ some r → find_row j (t ++ u) ≡ some r
find_row-append j [] u r h = absurd (cc)
find_row-append j (q ∷ t) u r h = ground (arith, find_row-append j t u r)

-- A found row has the key that it was found by.
pub find_row-id : (j : Text) (t : Table) (r : Outbox) → find_row j t ≡ some r → has_id j r ≡ true
find_row-id j [] r h = absurd (cc)
find_row-id j (q ∷ t) r h = ground (arith, find_row-id j t r)

-- Whatever the connection does, a call leaves the table as it was or as the statement made it.
pub answered-table :
    {A : Type 0} (P : Table → Type 0) (t : Table) (l : Link) (r : Result (Table × A))
    → P t
    → ((t' : Table) (a : A) → r ≡ ok (t', a) → P t')
    → P (answered t l r).0
answered-table P t up (ok (t', a)) h k = k t' a refl
answered-table P t up (err e) h k = h
answered-table P t (refused e) r h k = h
answered-table P t (dropped e) (ok (t', a)) h k = k t' a refl
answered-table P t (dropped e) (err e') h k = h
