-- ===== src/Repo/Directory.antt =====
-- ListUsers of internal/identity/repository.go: a page of the users, each with their roles.
-- A user, with the roles they hold and what those grant together (UserSummary of models.go).
pub mod Laws
pub mod Grants
pub mod Query
pub mod Page
use git_single_tenant_templa.Prelude.{
  ℕ, Bool, true, false, not, ◌&&◌, ◌||◌, Option, none, some, List, [], ◌∷◌, map, flat_map, ltb,
  ◌==◌, if◌then◌else◌, length, any, filter, sort_by,
}
use git_single_tenant_templa.Audit.{page_limit}
use git_single_tenant_templa.Exec.{ok, Exec, Conn, Env}
use git_single_tenant_templa.Identity.Permission.{text_le}
use git_single_tenant_templa.Model.{PermissionSet, User, Role, Db}
use git_single_tenant_templa.Repo.Roles.Rows.{
  RolePermissionRow, role_order, add_permission, collect_row, user_role_rows,
}

pub record UserSummary : Type 0 where
  pub user : User
  pub roles : List Role
  pub permissions : PermissionSet

-- A row of the query: the columns of the role are NULL for a user who holds none.
abbrev pub DirectoryRow : Type 0
DirectoryRow = User × Option RolePermissionRow

-- users LEFT JOIN user_roles LEFT JOIN roles LEFT JOIN role_permissions, for one user.
unfoldable pub rows_of_user : User → List RolePermissionRow → List DirectoryRow
rows_of_user u [] = (u, none) ∷ []
rows_of_user u (row ∷ rows) = map (λ r. (u, some r)) (row ∷ rows)

-- r.is_system DESC, r.key: NULL comes first.
unfoldable pub held_order : Env → Option RolePermissionRow → Option RolePermissionRow → Bool
unfolding role_order
held_order env none b = true
held_order env (some a) none = false
held_order env (some a) (some b) = role_order env a b

-- ORDER BY users.id DESC, r.is_system DESC, r.key
unfoldable pub directory_order : Env → DirectoryRow → DirectoryRow → Bool
unfolding held_order
directory_order env (u, a) (v, b) = if u.id == v.id then held_order env a b else ltb v.id u.id

unfoldable pub directory_rows : Env → ℕ → Db → List DirectoryRow
unfolding directory_order rows_of_user user_role_rows filter flat_map sort_by
directory_rows env before db = sort_by (directory_order env) (
    flat_map (λ u. rows_of_user u (user_role_rows db u.id))
      (filter (λ u. before == 0 || ltb u.id before) db.users))

-- The role and the permission of a row, added to the summary of its user.
unfoldable pub add_held : UserSummary → Option RolePermissionRow → UserSummary
unfolding collect_row add_permission
add_held s none = s
add_held s (some (r, p)) = record s {
  roles = collect_row s.roles (r, p);
  permissions = add_permission s.permissions p;
}

-- One round of the loop, of a row that does not end it. The list is byUser in the order of `order`.
unfoldable pub place_row : List UserSummary → DirectoryRow → List UserSummary
unfolding add_held
place_row [] (u, held) = add_held (record { user = u; roles = []; permissions = [] }) held ∷ []
place_row (s ∷ ss) (u, held) =
    let rest = place_row ss (u, held) in
    if s.user.id == u.id then add_held s held ∷ ss else s ∷ rest

-- The loop: it ends at a user who is new when the page is full.
unfoldable pub collect_page : ℕ → List UserSummary → List DirectoryRow → List UserSummary
unfolding place_row any
collect_page limit page [] = page
collect_page limit page ((u, held) ∷ rows) =
    let rest = collect_page limit (place_row page (u, held)) rows in
    if not (any (λ s. s.user.id == u.id) page) && length page == limit then page else rest

-- sortRoles of roles_repository.go, whose order is that of Go's strings.
unfoldable pub before_role : Role → Role → Bool
before_role a b =
    if a.is_system && not b.is_system
    then true
    else if not a.is_system && b.is_system
    then false
    else text_le a.key b.key

unfoldable pub sort_roles : UserSummary → UserSummary
unfolding sort_by before_role
sort_roles s = record s { roles = sort_by before_role s.roles }

-- Repository.ListUsers, where `before` is 0 for uuid.Nil.
unfoldable pub list_users : Env → ℕ → ℕ → Exec Conn (List UserSummary)
unfolding page_limit directory_rows collect_page sort_roles
list_users env before limit c =
    (ok (map sort_roles (collect_page (page_limit limit) [] (directory_rows env before c.db))), c)
