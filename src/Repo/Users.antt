-- ===== src/Repo/Users.antt =====
-- The users of internal/identity/repository.go.
use git_single_tenant_templa.Prelude.{
  ℕ, ◌+◌, String, Bool, true, false, ◌&&◌, none, some, List, ◌∷◌, str_eq, ◌==◌, if◌then◌else◌, any,
  find?, update,
}
use git_single_tenant_templa.Exec.{ok, err, Exec, Conn, Env, or_raise}
use git_single_tenant_templa.Identity.Permission.{missing}
use git_single_tenant_templa.Model.{User, Error, not_found, email_taken, invalid_token}

-- The comparison of a citext column.
abbrev pub same_email : Env → String → String → Bool
same_email env a b = str_eq (env.fold_email a) (env.fold_email b)

abbrev pub with_users : Conn → List User → Conn
with_users c users = record c { db = record c.db { users = users } }

-- UPDATE users SET … WHERE … RETURNING …, when no row is `missing`.
unfoldable pub update_user : (User → Bool) → (User → User) → Error → Exec Conn User
unfolding find? update
update_user p f missing c = elim (find? p c.db.users) [
  | none ↦ (err missing, c)
  | some u ↦ (ok (f u), with_users c (update p f c.db.users))
]

unfoldable pub get_user_by_id : ℕ → Exec Conn User
unfolding find? or_raise
get_user_by_id id c = or_raise (find? (λ u. u.id == id) c.db.users) not_found c

unfoldable pub set_user_active : ℕ → Bool → Exec Conn User
unfolding update_user
set_user_active user_id is_active c =
    update_user (λ u. u.id == user_id) (λ u. record u { is_active = is_active; updated_at = c.now })
      not_found c

unfoldable pub update_user_password : ℕ → String → Exec Conn (Unit {0})
unfolding any update
update_user_password user_id password_hash c =
    if any (λ u. u.id == user_id) c.db.users
    then (
      ok tt,
      with_users c (
          update (λ u. u.id == user_id)
            (λ u. record u { password_hash = password_hash; updated_at = c.now }) c.db.users),
    )
    else (err not_found, c)

module _ (env : Env) where
  unfoldable pub create_user : String → String → String → String → Exec Conn User
  unfolding any
  create_user email password_hash first_name last_name c =
      let user : User = record {
        id = c.db.next_id;
        email = email;
        first_name = first_name;
        last_name = last_name;
        is_superuser = false;
        is_active = true;
        email_verified_at = none;
        created_at = c.now;
        updated_at = c.now;
        password_hash = password_hash;
      } in
      if any (λ u. same_email env u.email email) c.db.users then (err email_taken, c) else (
        ok user,
        record c { db = record c.db { next_id = c.db.next_id + 1; users = user ∷ c.db.users } },
      )

  unfoldable pub get_user_by_email : String → Exec Conn User
  unfolding find? or_raise
  get_user_by_email email c =
      or_raise (find? (λ u. same_email env u.email email) c.db.users) not_found c

  unfoldable pub set_superuser : String → Bool → Exec Conn User
  unfolding update_user
  set_superuser email is_superuser c =
      update_user (λ u. same_email env u.email email)
        (λ u. record u { is_superuser = is_superuser; updated_at = c.now }) not_found c

  unfoldable pub mark_email_verified : ℕ → String → Exec Conn User
  unfolding update_user
  mark_email_verified user_id email c =
      update_user (λ u. u.id == user_id && same_email env u.email email)
        (λ u. record u { email_verified_at = some c.now; updated_at = c.now }) invalid_token c
