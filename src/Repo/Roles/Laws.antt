-- ===== src/Repo/Roles/Laws.antt =====
-- What the queries of roles_repository.go read back, against the tables.
use git_single_tenant_templa.Prelude.{
  ℕ, ◌≡◌, refl, ap, ◌∙◌, Bool, true, false, ◌&&◌, ◌||◌, none, some, List, [], ◌∷◌, map, flat_map,
  arith, str_eq, ◌==◌, any, filter, any-filter, any_congr, any-flat_map, any-map,
}
use git_single_tenant_templa.Identity.Permission.{has}
use git_single_tenant_templa.Identity.Permission.Laws.{has_nil, has-add}
use git_single_tenant_templa.Model.{Permission, RoleRow, Role, Db}
use git_single_tenant_templa.Repo.Roles.Rows.{
  RolePermissionRow, permissions_of, left_join_rows, left_join, add_permission, collect_row,
  collect_from, collect_roles, user_role_rows,
}

-- A joined row carries this permission.
abbrev pub grants : RolePermissionRow → Permission → Bool
grants (r, none) p = false
grants (r, some q) p = str_eq q p

-- The table role_permissions gives this permission to this role.
unfoldable pub role_grants : Db → ℕ → Permission → Bool
role_grants db role_id p = any (λ rp. rp.0 == role_id && str_eq rp.1 p) db.role_permissions

unfoldable pub role_exists : Db → ℕ → Bool
role_exists db role_id = any (λ r. r.id == role_id) db.roles

-- What the tables say that a user may do: one of their roles grants it.
unfoldable pub user_can : Db → ℕ → Permission → Bool
user_can db user_id p =
    any (λ ur. ur.0 == user_id && (role_exists db ur.1 && role_grants db ur.1 p)) db.user_roles

has-permissions_of :
    (role_id : ℕ) (p : Permission) (rows : List (ℕ × Permission))
    → has (permissions_of role_id rows) p ≡ any (λ rp. rp.0 == role_id && str_eq rp.1 p) rows
unfolding permissions_of has any
has-permissions_of role_id p [] = refl
has-permissions_of role_id p ((id, q) ∷ rows) = ground (arith, has-permissions_of role_id p rows)

any-grants-map :
    (r : RoleRow) (ps : List Permission) (p : Permission)
    → any (λ row. grants row p) (map (λ q. (r, some q)) ps) ≡ has ps p
unfolding has
any-grants-map r ps p = any-map (λ row. grants row p) (λ q. (r, some q)) ps

pub any-grants-left_join :
    (db : Db) (r : RoleRow) (p : Permission)
    → any (λ row. grants row p) (left_join db r) ≡ role_grants db r.id p
unfolding left_join role_grants
any-grants-left_join db r p =
    go (permissions_of r.id db.role_permissions) ∙ has-permissions_of r.id p db.role_permissions
  where
    go : (ps : List Permission) → any (λ row. grants row p) (left_join_rows r ps) ≡ has ps p
    go [] = unfold left_join_rows any has in refl
    go (q ∷ ps) = unfold left_join_rows in any-grants-map r (q ∷ ps) p

any_same :
    (r : RoleRow) (t : RoleRow → Bool) (ps : List Permission)
    → any (λ row. t row.0) (map {B = RolePermissionRow} (λ q. (r, some q)) ps) ≡ true
    → t r ≡ true
unfolding any
any_same r t [] h = cc
any_same r t (q ∷ ps) h = ground (arith, any_same r t ps)

-- A role joins with itself only, and at least once.
pub any_role-left_join :
    (db : Db) (r : RoleRow) (t : RoleRow → Bool) → any (λ row. t row.0) (left_join db r) ≡ t r
unfolding left_join
any_role-left_join db r t = go (permissions_of r.id db.role_permissions)
  where
    go : (ps : List Permission) → any (λ row. t row.0) (left_join_rows r ps) ≡ t r
    go [] = unfold left_join_rows any in ground arith
    go (q ∷ ps) = unfold left_join_rows any in ground (arith, any_same r t ps)

-- Folding the rows back into roles keeps what they grant, to every choice of roles by id.
any-collect_row :
    (g : ℕ → Bool) (p : Permission) (out : List Role) (row : RolePermissionRow)
    → any (λ r. g r.row.id && has r.permissions p) (collect_row out row)
      ≡ (any (λ r. g r.row.id && has r.permissions p) out || g row.0.id && grants row p)
unfolding collect_row any add_permission
any-collect_row g p [] (r, none) = unfold has any in ground arith
any-collect_row g p [] (r, some q) = ground (arith, has-add [] q p, has_nil p)
any-collect_row g p (x ∷ xs) (r, none) = ground (arith, any-collect_row g p xs (r, none), ap g)
any-collect_row g p (x ∷ xs) (r, some q) =
    ground (arith, any-collect_row g p xs (r, some q), has-add x.permissions q p)

any-collect_from :
    (g : ℕ → Bool) (p : Permission) (out : List Role) (rows : List RolePermissionRow)
    → any (λ r. g r.row.id && has r.permissions p) (collect_from out rows) ≡ (
        any (λ r. g r.row.id && has r.permissions p) out
        || any (λ row. g row.0.id && grants row p) rows)
unfolding collect_from any
any-collect_from g p out [] = ground arith
any-collect_from g p out (row ∷ rows) =
    ground (arith, any-collect_from g p (collect_row out row) rows, any-collect_row g p out row)

-- The roles that a query reads back grant together what its rows grant.
pub any-collect_roles :
    (g : ℕ → Bool) (p : Permission) (rows : List RolePermissionRow)
    → any (λ r. g r.row.id && has r.permissions p) (collect_roles rows)
      ≡ any (λ row. g row.0.id && grants row p) rows
unfolding collect_roles
any-collect_roles g p rows = unfold any in ground (arith, any-collect_from g p [] rows)

-- The roles table read for one id, joined with the permissions, grants what the tables give it.
any-grants-role_rows :
    (db : Db) (role_id : ℕ) (p : Permission) (roles : List RoleRow)
    → any (λ r. any (λ row. grants row p) (left_join db r)) (filter (λ r. r.id == role_id) roles)
      ≡ (any (λ r. r.id == role_id) roles && role_grants db role_id p)
unfolding any filter
any-grants-role_rows db role_id p [] = refl
any-grants-role_rows db role_id p (r ∷ rs) = ground (
  arith,
  any-grants-role_rows db role_id p rs,
  any-grants-left_join db r p,
  ap (λ i. role_grants db i p),
)

-- The rows of the query for a user grant what the tables say that the user may do.
pub any-grants-user_role_rows :
    (db : Db) (user_id : ℕ) (p : Permission)
    → any (λ row. grants row p) (user_role_rows db user_id) ≡ user_can db user_id p
unfolding user_role_rows user_can role_exists
any-grants-user_role_rows db user_id p =
    any-flat_map (λ row. grants row p)
      (λ ur. flat_map (left_join db) (filter (λ r. r.id == ur.1) db.roles))
      (filter (λ ur. ur.0 == user_id) db.user_roles)
    ∙ any-filter
        (λ ur.
          any (λ row. grants row p) (flat_map (left_join db) (filter (λ r. r.id == ur.1) db.roles)))
        (λ ur. ur.0 == user_id) db.user_roles
    ∙ any_congr _ _ db.user_roles (λ ur.
      ap (λ b. ur.0 == user_id && b)
        (any-flat_map (λ row. grants row p) (left_join db) (filter (λ r. r.id == ur.1) db.roles)
          ∙ any-grants-role_rows db ur.1 p db.roles))
