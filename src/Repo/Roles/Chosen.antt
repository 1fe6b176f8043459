-- ===== src/Repo/Roles/Chosen.antt =====
-- What GetRolesByIDs gives back, against the tables.
use git_single_tenant_templa.Prelude.{
  ℕ, ◌≡◌, refl, sym, ap, ◌∙◌, Bool, true, false, ◌&&◌, ◌||◌, List, [], ◌∷◌, flat_map, arith, ◌==◌,
  length, any, filter, sort_by, any-sort_by, any-filter, any_congr, any-flat_map,
}
use git_single_tenant_templa.Exec.{ok, err, Conn, Env}
use git_single_tenant_templa.Exec.Ensures.{Ensures, Ensures-ok, Ensures-err, Ensures-if}
use git_single_tenant_templa.Identity.Permission.{has}
use git_single_tenant_templa.Model.{Permission, RoleRow, Role, Db, not_found}
use git_single_tenant_templa.Repo.Roles.Laws.{
  grants, role_grants, role_exists, any-grants-left_join, any_role-left_join, any-collect_roles,
}
use git_single_tenant_templa.Repo.Roles.Rows.{
  RolePermissionRow, left_join, role_order, add_permission, collect_row, collect_from,
  collect_roles, distinct, get_roles_by_ids,
}

any_id-collect_row :
    (t : ℕ → Bool) (out : List Role) (row : RolePermissionRow)
    → any (λ r. t r.row.id) (collect_row out row) ≡ (any (λ r. t r.row.id) out || t row.0.id)
unfolding collect_row any add_permission
any_id-collect_row t [] (r, q) = ground arith
any_id-collect_row t (x ∷ xs) (r, q) = ground (arith, any_id-collect_row t xs (r, q), ap t)

any_id-collect_from :
    (t : ℕ → Bool) (out : List Role) (rows : List RolePermissionRow)
    → any (λ r. t r.row.id) (collect_from out rows)
      ≡ (any (λ r. t r.row.id) out || any (λ row. t row.0.id) rows)
unfolding collect_from any
any_id-collect_from t out [] = ground arith
any_id-collect_from t out (row ∷ rows) =
    ground (arith, any_id-collect_from t (collect_row out row) rows, any_id-collect_row t out row)

-- The roles that a query reads back are those of its rows.
pub any_id-collect_roles :
    (t : ℕ → Bool) (rows : List RolePermissionRow)
    → any (λ r. t r.row.id) (collect_roles rows) ≡ any (λ row. t row.0.id) rows
unfolding collect_roles
any_id-collect_roles t rows = unfold any in ground (arith, any_id-collect_from t [] rows)

-- The id is one of those asked for.
unfoldable pub is_wanted : List ℕ → ℕ → Bool
unfolding any
is_wanted ids id = any (λ i. i == id) ids

-- The rows that the query for these roles joins.
abbrev pub chosen_rows : Env → List ℕ → Db → List RolePermissionRow
chosen_rows env ids db =
    sort_by (role_order env) (flat_map (left_join db) (filter (λ r. is_wanted ids r.id) db.roles))

pub any-chosen_rows :
    (env : Env) (ids : List ℕ) (db : Db) (t : RolePermissionRow → Bool)
    → any t (chosen_rows env ids db)
      ≡ any (λ r. is_wanted ids r.id && any t (left_join db r)) db.roles
any-chosen_rows env ids db t =
    any-sort_by t (role_order env)
      (flat_map (left_join db) (filter (λ r. is_wanted ids r.id) db.roles))
    ∙ any-flat_map t (left_join db) (filter (λ r. is_wanted ids r.id) db.roles)
    ∙ any-filter (λ r. any t (left_join db r)) (λ r. is_wanted ids r.id) db.roles

-- The roles that were read are those of the table that were asked for, with what they grant.
pub record AreChosen (ids : List ℕ) (db : Db) (roles : List Role) : Type 0 where
  pub any_id :
      (t : ℕ → Bool)
      → any (λ r. t r.row.id) roles ≡ any (λ r. is_wanted ids r.id && t r.id) db.roles
  pub any_has :
      (p : Permission)
      → any (λ r. has r.permissions p) roles
        ≡ any (λ r. is_wanted ids r.id && role_grants db r.id p) db.roles

collected-AreChosen :
    (env : Env) (ids : List ℕ) (db : Db) → AreChosen ids db (collect_roles (chosen_rows env ids db))
collected-AreChosen env ids db = record {
  any_id = λ t.
      any_id-collect_roles t (chosen_rows env ids db)
      ∙ any-chosen_rows env ids db (λ row. t row.0.id)
      ∙ any_congr _ _ db.roles
          (λ r. ap (λ b. is_wanted ids r.id && b) (any_role-left_join db r (λ s. t s.id)));
  any_has = λ p.
      any-collect_roles (λ _. true) p (chosen_rows env ids db)
      ∙ any-chosen_rows env ids db (λ row. grants row p)
      ∙ any_congr _ _ db.roles
          (λ r. ap (λ b. is_wanted ids r.id && b) (any-grants-left_join db r p));
}

any_none :
    (t : RoleRow → Bool) (rows : List RoleRow) → any (λ r. is_wanted [] r.id && t r) rows ≡ false
unfolding any is_wanted
any_none t [] = refl
any_none t (r ∷ rs) = any_none t rs

none-AreChosen : (db : Db) → AreChosen [] db []
unfolding any
none-AreChosen db = record {
  any_id = λ t. sym (any_none (λ r. t r.id) db.roles);
  any_has = λ p. sym (any_none (λ r. role_grants db r.id p) db.roles);
}

pub Ensures-get_roles_by_ids :
    (env : Env) (ids : List ℕ) (c : Conn)
    → Ensures (λ roles d. (d ≡ c) × AreChosen ids c.db roles) (get_roles_by_ids env ids c)
unfolding get_roles_by_ids is_wanted
Ensures-get_roles_by_ids env [] c = Ensures-ok [] c (refl, none-AreChosen c.db)
Ensures-get_roles_by_ids env (id ∷ ids) c =
    let wanted = id ∷ ids in
    let roles = collect_roles (chosen_rows env wanted c.db) in
    Ensures-if (length roles == length (distinct wanted)) (ok roles, c) (err not_found, c)
      (λ _. Ensures-ok roles c (refl, collected-AreChosen env wanted c.db))
      (λ _. Ensures-err not_found c)

any_row_of_id :
    (t : ℕ → Bool) (i : ℕ) (rows : List RoleRow)
    → any (λ r. i == r.id && t r.id) rows ≡ (any (λ r. r.id == i) rows && t i)
unfolding any
any_row_of_id t i [] = refl
any_row_of_id t i (r ∷ rs) = ground (arith, any_row_of_id t i rs, ap t)

any-split :
    (f g t : RoleRow → Bool) (rows : List RoleRow)
    → any (λ r. (f r || g r) && t r) rows
      ≡ (any (λ r. f r && t r) rows || any (λ r. g r && t r) rows)
unfolding any
any-split f g t [] = refl
any-split f g t (r ∷ rs) = ground (arith, any-split f g t rs)

-- To look through the table for the ids asked for is to look each of them up in the table.
pub any_wanted :
    (t : ℕ → Bool) (ids : List ℕ) (db : Db)
    → any (λ r. is_wanted ids r.id && t r.id) db.roles ≡ any (λ i. role_exists db i && t i) ids
unfolding role_exists any is_wanted
any_wanted t [] db = any_none (λ r. t r.id) db.roles
any_wanted t (i ∷ ids) db =
    unfold is_wanted any in
    ground (
      arith,
      any-split (λ r. i == r.id) (λ r. is_wanted ids r.id) (λ r. t r.id) db.roles,
      any_row_of_id t i db.roles,
      any_wanted t ids db,
    )
