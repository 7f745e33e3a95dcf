-- ===== src/Pgx/Table.antt =====
-- contrib/pgx/repo.go, schema/schema.go: a table of outbox rows, with what `UPDATE … WHERE`, `DELETE … WHERE`
-- and `SELECT … ORDER BY created_at LIMIT n FOR UPDATE SKIP LOCKED` do to it.
use o4x.Prelude.{
  ℕ, zero, suc, Bool, not, ◌&&◌, Option, none, some, List, [], ◌∷◌, map, Text, text_eq,
  if◌then◌else◌, leb, select, any_of, first_of?,
}
use o4x.Core.Model.{Outbox}

abbrev pub Table : Type 0
Table = List Outbox

abbrev pub has_id : Text → Outbox → Bool
has_id j r = text_eq r.id j

-- `id = ANY(ids)`
abbrev pub id_among : List Text → Outbox → Bool
id_among ids r = any_of (text_eq r.id) ids

-- The row with the primary key `j`.
abbrev pub find_row : Text → Table → Option Outbox
find_row j t = first_of? (has_id j) t

-- `UPDATE … SET f WHERE p`
abbrev pub change : (Outbox → Bool) → (Outbox → Outbox) → Outbox → Outbox
change p f r = if p r then f r else r

unfoldable pub update_where : (Outbox → Bool) → (Outbox → Outbox) → Table → Table
update_where p f t = map (change p f) t

-- `DELETE … WHERE p`
unfoldable pub delete_where : (Outbox → Bool) → Table → Table
delete_where p t = select (λ r. not (p r)) t

-- The earlier of two rows; the first one on a tie.
abbrev pub earlier : Outbox → Option Outbox → Outbox
earlier r none = r
earlier r (some q) = if leb r.created_at q.created_at then r else q

-- `ORDER BY created_at ASC LIMIT 1` among the rows that pass.
unfoldable pub oldest : (Outbox → Bool) → Table → Option Outbox
oldest p [] = none
oldest p (r ∷ t) = let rest = oldest p t in if p r then some (earlier r rest) else rest

-- `ORDER BY created_at ASC LIMIT n`: the oldest, then the oldest of the others.
unfoldable pub oldest_of : ℕ → (Outbox → Bool) → Table → List Outbox
oldest_of zero p t = []
oldest_of (suc n) p t = elim (oldest p t) [
  | none ↦ []
  | some r ↦ r ∷ oldest_of n (λ q. p q && not (has_id r.id q)) t
]
