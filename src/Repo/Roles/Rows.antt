-- ===== src/Repo/Roles/Rows.antt =====
-- The queries of roles_repository.go: rows of roles joined with their permissions, folded back
-- into roles.
use git_single_tenant_templa.Prelude.{
  ℕ, String, Bool, true, false, ◌&&◌, Option, none, some, List, [], ◌∷◌, map, flat_map, str_eq,
  ◌==◌, if◌then◌else◌, length, any, filter, sort_by,
}
use git_single_tenant_templa.Exec.{ok, err, Exec, Conn, Env}
use git_single_tenant_templa.Identity.Permission.{add}
use git_single_tenant_templa.Model.{Permission, PermissionSet, RoleRow, Role, Db, not_found}

-- A row of `roles r LEFT JOIN role_permissions rp ON rp.role_id = r.id`.
abbrev pub RolePermissionRow : Type 0
RolePermissionRow = RoleRow × Option Permission

-- The permissions that a role grants, as the table role_permissions has them.
unfoldable pub permissions_of : ℕ → List (ℕ × Permission) → List Permission
permissions_of role_id [] = []
permissions_of role_id ((id, p) ∷ rest) =
    if id == role_id then p ∷ permissions_of role_id rest else permissions_of role_id rest

-- A LEFT JOIN gives a role without permissions one row, with NULL.
unfoldable pub left_join_rows : RoleRow → List Permission → List RolePermissionRow
left_join_rows r [] = (r, none) ∷ []
left_join_rows r (p ∷ ps) = map (λ q. (r, some q)) (p ∷ ps)

unfoldable pub left_join : Db → RoleRow → List RolePermissionRow
unfolding permissions_of left_join_rows
left_join db r = left_join_rows r (permissions_of r.id db.role_permissions)

-- ORDER BY r.is_system DESC, r.key
unfoldable pub role_order : Env → RolePermissionRow → RolePermissionRow → Bool
role_order env (a, _) (b, _) = elim a.is_system [
  | true ↦ if b.is_system then env.collate a.key b.key else true
  | false ↦ if b.is_system then false else env.collate a.key b.key
]

-- `if perm != nil { existing.Permissions[*perm] = struct{}{} }`
unfoldable pub add_permission : PermissionSet → Option Permission → PermissionSet
unfolding add
add_permission s none = s
add_permission s (some p) = add s p

-- One round of the loop of collectRoles. The list is byID in the order of `order`.
unfoldable pub collect_row : List Role → RolePermissionRow → List Role
unfolding add_permission
collect_row [] (r, p) = record { row = r; permissions = add_permission [] p } ∷ []
collect_row (x ∷ xs) (r, p) =
    if x.row.id == r.id
    then record x { permissions = add_permission x.permissions p } ∷ xs
    else x ∷ collect_row xs (r, p)

unfoldable pub collect_from : List Role → List RolePermissionRow → List Role
unfolding collect_row
collect_from out [] = out
collect_from out (row ∷ rows) = collect_from (collect_row out row) rows

unfoldable pub collect_roles : List RolePermissionRow → List Role
unfolding collect_from
collect_roles rows = collect_from [] rows

-- `roles[0]`, or ErrNotFound when there is none.
abbrev pub first_role : List Role → Exec Conn Role
first_role [] c = (err not_found, c)
first_role (r ∷ rs) c = (ok r, c)

unfoldable pub get_role : ℕ → Exec Conn Role
unfolding collect_roles left_join filter flat_map
get_role role_id c =
    first_role
      (collect_roles (flat_map (left_join c.db) (filter (λ r. r.id == role_id) c.db.roles))) c

unfoldable pub get_role_by_key : String → Exec Conn Role
unfolding collect_roles left_join filter flat_map
get_role_by_key key c =
    first_role
      (collect_roles (flat_map (left_join c.db) (filter (λ r. str_eq r.key key) c.db.roles))) c

unfoldable pub list_roles : Env → Exec Conn (List Role)
unfolding collect_roles left_join flat_map sort_by role_order
list_roles env c =
    (ok (collect_roles (sort_by (role_order env) (flat_map (left_join c.db) c.db.roles))), c)

-- The map `wanted`, a set of ids.
unfoldable pub distinct : List ℕ → List ℕ
unfolding any
distinct [] = []
distinct (x ∷ xs) = let rest = distinct xs in if any (λ y. y == x) xs then rest else x ∷ rest

unfoldable pub get_roles_by_ids : Env → List ℕ → Exec Conn (List Role)
unfolding collect_roles left_join filter flat_map sort_by role_order distinct any
get_roles_by_ids env [] c = (ok [], c)
get_roles_by_ids env (id ∷ ids) c =
    let wanted = id ∷ ids in
    let roles = collect_roles (
      sort_by (role_order env)
        (flat_map (left_join c.db) (filter (λ r. any (λ i. i == r.id) wanted) c.db.roles))) in
    if length roles == length (distinct wanted) then (ok roles, c) else (err not_found, c)

-- FROM user_roles ur JOIN roles r ON r.id = ur.role_id LEFT JOIN role_permissions rp …
unfoldable pub user_role_rows : Db → ℕ → List RolePermissionRow
unfolding filter flat_map left_join
user_role_rows db user_id =
    flat_map (λ ur. flat_map (left_join db) (filter (λ r. r.id == ur.1) db.roles))
      (filter (λ ur. ur.0 == user_id) db.user_roles)

unfoldable pub load_user_roles : Env → ℕ → Exec Conn (List Role)
unfolding collect_roles user_role_rows sort_by role_order
load_user_roles env user_id c =
    (ok (collect_roles (sort_by (role_order env) (user_role_rows c.db user_id))), c)

-- `JOIN roles r ON r.id = ur.role_id WHERE r.is_system AND r.key = $1`
unfoldable pub is_assignment_of : Db → String → (ℕ × ℕ) → Bool
unfolding any
is_assignment_of db key ur = any (λ r. r.id == ur.1 && (r.is_system && str_eq r.key key)) db.roles

unfoldable pub count_users_with_role : String → Exec Conn ℕ
unfolding distinct filter is_assignment_of
count_users_with_role key c = (
  ok (length (distinct (map (λ ur. ur.0) (filter (is_assignment_of c.db key) c.db.user_roles)))),
  c,
)

-- The same, with `JOIN users u ON u.id = ur.user_id AND u.is_active`.
unfoldable pub count_active_users_with_role : String → Exec Conn ℕ
unfolding distinct filter is_assignment_of any
count_active_users_with_role key c = (
  ok (
      length (
        distinct (
          map (λ ur. ur.0)
            (filter
              (λ ur.
                is_assignment_of c.db key ur && any (λ u. u.id == ur.0 && u.is_active) c.db.users)
              c.db.user_roles)))),
  c,
)

abbrev pub roles_to_ids : List Role → List ℕ
roles_to_ids roles = map (λ r. r.row.id) roles
