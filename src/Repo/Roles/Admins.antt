-- ===== src/Repo/Roles/Admins.antt =====
-- Whether the admin role is among the roles that GetRolesByIDs gives back.
use git_single_tenant_templa.Prelude.{
  ℕ, ◌≡◌, sym, ap, ◌∙◌, Bool, true, false, ◌&&◌, List, [], ◌∷◌, arith, ◌==◌, length, any, any_congr,
  any-map, any-false_mono,
}
use git_single_tenant_templa.Exec.{ok, err, Conn, Env}
use git_single_tenant_templa.Exec.Ensures.{Ensures, Ensures-ok, Ensures-err, Ensures-if}
use git_single_tenant_templa.Identity.Access.{role_key_admin, has_role}
use git_single_tenant_templa.Model.{RoleRow, Role, Db, not_found}
use git_single_tenant_templa.Repo.Roles.Chosen.{
  any_id-collect_roles, is_wanted, chosen_rows, any-chosen_rows,
}
use git_single_tenant_templa.Repo.Roles.Holders.{
  has_unique_ids, passes_at, differs, differs_unique, any_row-of_rows, any_row-collect_roles,
  is_system_key,
}
use git_single_tenant_templa.Repo.Roles.Laws.{any_role-left_join}
use git_single_tenant_templa.Repo.Roles.Rows.{
  RolePermissionRow, collect_roles, distinct, get_roles_by_ids, roles_to_ids,
}

-- The admin role among the roles that were asked for is the admin role of the table.
unfoldable pub HasAdmin : Db → List Role → Type 0
HasAdmin db roles =
    has_role roles role_key_admin ≡ true
    → any (λ i. passes_at (is_system_key role_key_admin) db.roles i) (roles_to_ids roles) ≡ true

collected-HasAdmin :
    (env : Env) (ids : List ℕ) (db : Db)
    → has_unique_ids db.roles ≡ true
    → HasAdmin db (collect_roles (chosen_rows env ids db))
unfolding HasAdmin has_role
collected-HasAdmin env ids db unique h =
    any-map f (λ r. r.row.id) (collect_roles rows)
    ∙ any_id-collect_roles f rows
    ∙ any_row-of_rows t f rows agree
    ∙ sym (any_row-collect_roles t f rows agree)
    ∙ h
  where
    t : RoleRow → Bool
    t = is_system_key role_key_admin

    f : ℕ → Bool
    f = passes_at (is_system_key role_key_admin) db.roles

    rows : List RolePermissionRow
    rows = chosen_rows env ids db

    agree : any (λ row. differs (t row.0) (f row.0.id)) rows ≡ false
    agree =
        any-chosen_rows env ids db (λ row. differs (t row.0) (f row.0.id))
        ∙ any_congr _ _ db.roles (λ r.
          ap (λ b. is_wanted ids r.id && b) (any_role-left_join db r (λ s. differs (t s) (f s.id))))
        ∙ any-false_mono (λ r. differs (t r) (f r.id))
            (λ r. is_wanted ids r.id && differs (t r) (f r.id)) db.roles (λ r h. ground arith)
            (differs_unique t db.roles unique)

pub get_roles_by_ids-HasAdmin :
    (env : Env) (ids : List ℕ) (c : Conn)
    → has_unique_ids c.db.roles ≡ true
    → Ensures (λ roles _. HasAdmin c.db roles) (get_roles_by_ids env ids c)
unfolding get_roles_by_ids is_wanted
get_roles_by_ids-HasAdmin env [] c unique =
    Ensures-ok [] c (unfold HasAdmin has_role any in λ h. cc)
get_roles_by_ids-HasAdmin env (id ∷ ids) c unique =
    let wanted = id ∷ ids in
    let roles = collect_roles (chosen_rows env wanted c.db) in
    Ensures-if (length roles == length (distinct wanted)) (ok roles, c) (err not_found, c)
      (λ _. Ensures-ok roles c (collected-HasAdmin env wanted c.db unique))
      (λ _. Ensures-err not_found c)
