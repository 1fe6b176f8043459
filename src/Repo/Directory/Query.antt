-- ===== src/Repo/Directory/Query.antt =====
-- The rows of the query of ListUsers, against the tables.
use git_single_tenant_templa.Prelude.{
  ℕ, ◌+◌, ◌≡◌, refl, ap, ◌∙◌, Bool, true, ◌&&◌, ◌||◌, none, some, List, [], ◌∷◌, map, arith, ltb,
  leb, ◌==◌, if◌then◌else◌, any, filter, insert_by, sort_by, any-sort_by, any-filter, any_congr,
  any-flat_map,
}
use git_single_tenant_templa.Exec.{Env}
use git_single_tenant_templa.Model.{Permission, User, Db}
use git_single_tenant_templa.Repo.Directory.{
  DirectoryRow, rows_of_user, held_order, directory_order, directory_rows,
}
use git_single_tenant_templa.Repo.Directory.Grants.{row_shows, descend}
use git_single_tenant_templa.Repo.Roles.Laws.{grants, user_can, any-grants-user_role_rows}
use git_single_tenant_templa.Repo.Roles.Rows.{RolePermissionRow, user_role_rows}

-- The user is behind the cursor of the request.
abbrev pub behind : ℕ → User → Bool
behind before u = before == 0 || ltb u.id before

directory_order-le :
    (env : Env) (a b : DirectoryRow)
    → (if directory_order env a b then leb b.0.id a.0.id else leb a.0.id b.0.id) ≡ true
unfolding directory_order
directory_order-le env (u, none) (v, b) = unfold held_order in ground arith
directory_order-le env (u, some a) (v, b) = ground arith

descend-insert_by :
    (env : Env) (n : ℕ) (row : DirectoryRow) (rows : List DirectoryRow)
    → leb row.0.id n ≡ true
    → descend n rows ≡ true
    → descend n (insert_by (directory_order env) row rows) ≡ true
unfolding descend insert_by
descend-insert_by env n row [] h k = ground arith
descend-insert_by env n row (x ∷ rows) h k =
    ground (arith, directory_order-le env row x, descend-insert_by env x.0.id row rows)

descend_mono :
    (m n : ℕ) (rows : List DirectoryRow)
    → leb m n ≡ true
    → descend m rows ≡ true
    → descend n rows ≡ true
unfolding descend
descend_mono m n [] h k = refl
descend_mono m n (row ∷ rows) h k = ground arith

-- ORDER BY puts the rows in the order of the ids, from some id on.
pub descend-sort_by :
    (env : Env) (rows : List DirectoryRow)
    → (n : ℕ) × (descend n (sort_by (directory_order env) rows) ≡ true)
unfolding sort_by
descend-sort_by env [] = (0, unfold descend in refl)
descend-sort_by env (row ∷ rows) =
    let (n, sorted) = descend-sort_by env rows in
    (
      n + row.0.id,
      descend-insert_by env (n + row.0.id) row _ (ground arith)
          (descend_mono n (n + row.0.id) _ (ground arith) sorted),
    )

any-rows_of_user :
    (q : User → Bool) (u : User) (rs : List RolePermissionRow)
    → any {A = DirectoryRow} (λ row. q row.0) (rows_of_user u rs) ≡ true
    → q u ≡ true
unfolding rows_of_user any
any-rows_of_user q u [] h = ground arith
any-rows_of_user q u (r ∷ rs) h = again (r ∷ rs) h
  where
    again :
        (xs : List RolePermissionRow)
        → any {A = DirectoryRow} (λ row. q row.0) (map (λ x. (u, some x)) xs) ≡ true
        → q u ≡ true
    again [] k = cc
    again (x ∷ xs) k = ground (arith, again xs)

shows-rows_of_user :
    (id : ℕ) (p : Permission) (u : User) (rs : List RolePermissionRow)
    → any (row_shows id p) (rows_of_user u rs) ≡ (u.id == id && any (λ row. grants row p) rs)
unfolding rows_of_user any row_shows
shows-rows_of_user id p u [] = ground arith
shows-rows_of_user id p u (r ∷ rs) = joined (r ∷ rs)
  where
    joined :
        (xs : List RolePermissionRow)
        → any (row_shows id p) (map (λ x. (u, some x)) xs)
          ≡ (u.id == id && any (λ row. grants row p) xs)
    joined [] = ground arith
    joined (x ∷ xs) = ground (arith, joined xs)

pub any-directory_rows :
    (t : DirectoryRow → Bool) (env : Env) (before : ℕ) (db : Db)
    → any t (directory_rows env before db)
      ≡ any (λ u. behind before u && any t (rows_of_user u (user_role_rows db u.id))) db.users
unfolding directory_rows
any-directory_rows t env before db =
    any-sort_by t (directory_order env) _
    ∙ any-flat_map t (λ u. rows_of_user u (user_role_rows db u.id))
        (filter (behind before) db.users)
    ∙ any-filter _ (behind before) db.users

-- The users that have a row are the ones behind the cursor.
pub users_behind :
    (id before : ℕ) (db : Db) (us : List User)
    → any
        (λ u.
          behind before u
          && any {A = DirectoryRow}
              (λ row. row.0.id == id)
              (rows_of_user u (user_role_rows db u.id)))
        us
      ≡ true
    → any (λ u. behind before u && u.id == id) us ≡ true
unfolding any
users_behind id before db [] h = cc
users_behind id before db (u ∷ us) h = ground (
  arith,
  any-rows_of_user (λ v. v.id == id) u (user_role_rows db u.id),
  users_behind id before db us,
)

shows-user :
    (id : ℕ) (p : Permission) (db : Db) (u : User)
    → any (row_shows id p) (rows_of_user u (user_role_rows db u.id))
      ≡ (u.id == id && user_can db u.id p)
shows-user id p db u =
    shows-rows_of_user id p u (user_role_rows db u.id)
    ∙ ap (λ b. u.id == id && b) (any-grants-user_role_rows db u.id p)

any_at_id :
    (g : ℕ → Bool) (id before : ℕ) (us : List User)
    → any (λ u. behind before u && (u.id == id && g u.id)) us
      ≡ (any (λ u. behind before u && u.id == id) us && g id)
unfolding any
any_at_id g id before [] = refl
any_at_id g id before (u ∷ us) = ground (arith, any_at_id g id before us, ap g)

-- The rows of the query give a user who is behind the cursor what the tables give the user.
pub shows-directory_rows :
    (env : Env) (id before : ℕ) (p : Permission) (db : Db)
    → any (row_shows id p) (directory_rows env before db)
      ≡ (any (λ u. behind before u && u.id == id) db.users && user_can db id p)
shows-directory_rows env id before p db =
    any-directory_rows (row_shows id p) env before db
    ∙ any_congr _ _ db.users (λ u. ap (λ b. behind before u && b) (shows-user id p db u))
    ∙ any_at_id (λ i. user_can db i p) id before db.users
