-- ===== src/Service/Authority.antt =====
-- What a caller may do (Authorize of service.go), against the tables.
use git_single_tenant_templa.Prelude.{ℕ, ◌≡◌, ◌∙◌, true, if◌then◌else◌, sort_by, any-sort_by}
use git_single_tenant_templa.Exec.{ok, World, Env, on_pool}
use git_single_tenant_templa.Exec.Ensures.{
  Ensures, Ensures-ok, Ensures-err, Ensures-pure, Ensures-if, Ensures-branch, Ensures-bind,
}
use git_single_tenant_templa.Identity.Access.{union_permissions, can}
use git_single_tenant_templa.Identity.Access.Laws.{has-union_permissions}
use git_single_tenant_templa.Identity.Permission.{has, valid}
use git_single_tenant_templa.Identity.Permission.Laws.{has-all_permissions}
use git_single_tenant_templa.Model.{Permission, User, Access, Db}
use git_single_tenant_templa.Repo.Roles.Laws.{
  grants, user_can, any-collect_roles, any-grants-user_role_rows,
}
use git_single_tenant_templa.Repo.Roles.Rows.{
  role_order, collect_roles, user_role_rows, load_user_roles,
}
use git_single_tenant_templa.Service.Users.{superuser_access, authorize}

-- The permissions of the roles of a user are those that the tables give the user.
pub has-load_user_roles :
    (env : Env) (user_id : ℕ) (p : Permission) (db : Db)
    → has
        (union_permissions (collect_roles (sort_by (role_order env) (user_role_rows db user_id))))
        p
      ≡ user_can db user_id p
has-load_user_roles env user_id p db =
    let rows = sort_by (role_order env) (user_role_rows db user_id) in
    has-union_permissions (collect_roles rows) p
    ∙ any-collect_roles (λ _. true) p rows
    ∙ any-sort_by (λ row. grants row p) (role_order env) (user_role_rows db user_id)
    ∙ any-grants-user_role_rows db user_id p

-- Authorize gives a superuser the permissions of the catalog, and any other caller the
-- permissions that the tables give them: those, and no others.
pub can-authorize :
    (env : Env) (user : User) (w : World) {access : Access} {w' : World}
    → authorize env user w ≡ (ok access, w')
    → (p : Permission)
    → can access p ≡ (if user.is_superuser then valid p else user_can w.db user.id p)
can-authorize env user w {access} {w'} h p = outcome.at access w' h
  where
    Granted : Access → World → Type 0
    Granted a t = can a p ≡ (if user.is_superuser then valid p else user_can w.db user.id p)

    outcome : Ensures Granted (authorize env user w)
    outcome =
        unfold authorize in
        Ensures-branch user.is_superuser _ _ w
          (λ b. Ensures-pure superuser_access w (unfold can in rw b (has-all_permissions p)))
          (λ b. Ensures-bind _ _ w (
            unfold on_pool load_user_roles in
            Ensures-if (env.db_fails w.tick) _ _ (λ _. Ensures-err _ _)
              (λ _.
                Ensures-ok _ _ (
                  Ensures-pure _ _ (unfold can in rw b (has-load_user_roles env user.id p w.db))))))
