-- ===== src/App/UserRepository.antt =====
-- examples/app/internal/repository/user.go: the table `users`.
use o4x.Prelude.{ℕ, Bool, ◌&&◌, ◌||◌, some, List, [], ◌∷◌, ◌++◌, Text, codes, text_eq, first_of?}
use o4x.Core.Errors.{GoError, external, Result, ok}
use o4x.App.Store.{User, UpdateUserRequest, Tables, AppDatabase}
use o4x.App.Actions.{Action, lift, ◌>>=◌, annotate, exec, query_pool, now_of}
use o4x.App.Statements.{update_rows, insert_unique, scan_row, affected, if_ok, values_fit}

abbrev pub is_user : Text → User → Bool
is_user j u = text_eq u.id j

abbrev pub has_email : Text → User → Bool
has_email email u = text_eq u.email email

abbrev pub with_users : Tables → List User → Tables × Unit {0}
with_users t rows = (record t { users = rows }, tt)

-- The keys of `users` are the id and the e-mail address.
unfoldable pub insert_user : User → AppDatabase → Tables → Result (Tables × Unit {0})
insert_user user db t =
    values_fit
      (db.fits (some 255) user.email
        && (db.fits (some 255) user.name && db.fits (some 50) user.status))
      (if_ok (with_users t)
        (insert_unique (λ u. is_user user.id u || has_email user.email u) user t.users))

unfoldable pub create : User → Action Unit
create user = annotate (codes "failed to create user: ") (exec (insert_user user))

unfoldable pub get_by_id : Text → Action User
get_by_id j =
    annotate (codes "failed to get user: ")
      (query_pool λ t. scan_row (first_of? (is_user j) t.users))

unfoldable pub get_by_email : Text → Action User
get_by_email email =
    annotate (codes "failed to get user by email: ")
      (query_pool λ t. scan_row (first_of? (has_email email) t.users))

-- `COALESCE(NULLIF(s, ''), old)`
abbrev pub coalesce : Text → Text → Text
coalesce [] old = old
coalesce (b ∷ s) old = b ∷ s

abbrev pub apply_update : UpdateUserRequest → ℕ → User → User
apply_update req now u = record u {
  name = coalesce req.name u.name;
  status = coalesce req.status u.status;
  updated_at = now;
}

abbrev pub with_counted_users : Tables → List User × ℕ → Tables × ℕ
with_counted_users t (rows, n) = (record t { users = rows }, n)

unfoldable pub update_user_rows :
    Text → UpdateUserRequest → AppDatabase → Tables → Result (Tables × ℕ)
update_user_rows j req db t =
    values_fit (db.fits (some 255) req.name && db.fits (some 50) req.status) (
      if_ok (with_counted_users t)
        (update_rows (is_user j) (λ u. ok (apply_update req (now_of db) u)) t.users))

abbrev pub user_not_found : Text → GoError
user_not_found j = external (codes "user not found: " ++ j)

unfoldable pub update : Text → UpdateUserRequest → Action Unit
update j req = do
  n ← annotate (codes "failed to update user: ") (exec (update_user_rows j req))
  lift (affected (user_not_found j) n)
