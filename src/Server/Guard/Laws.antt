-- ===== src/Server/Guard/Laws.antt =====
-- What a request that reached a gated handler may do.
use git_single_tenant_templa.Prelude.{◌≡◌, refl, sym, ap, ◌∙◌, Bool, if◌then◌else◌}
use git_single_tenant_templa.Exec.{World, Env, on_pool}
use git_single_tenant_templa.Exec.Ensures.{
  Ensures, Ensures-ok, Ensures-err, Ensures-pure, Ensures-if, Ensures-branch, Ensures-bind,
}
use git_single_tenant_templa.Identity.Access.{can}
use git_single_tenant_templa.Identity.Permission.{has, valid}
use git_single_tenant_templa.Model.{Permission, User, Db}
use git_single_tenant_templa.Repo.Roles.Laws.{user_can}
use git_single_tenant_templa.Repo.Roles.Rows.{load_user_roles}
use git_single_tenant_templa.Server.Guard.{Credential, by_session, by_api_key, access_of}
use git_single_tenant_templa.Service.Authority.{can-authorize}
use git_single_tenant_templa.Service.Users.{superuser_access, authorize}

-- What the tables, or the scope of its key, let this caller do.
unfoldable pub may : Db → User → Credential → Permission → Bool
unfolding has valid user_can
may db user (by_api_key key) p = has key.permissions p
may db user (by_session session) p = if user.is_superuser then valid p else user_can db user.id p

pub authorize-reads :
    (env : Env) (user : User) (w : World) → Ensures (λ _ v. v.conn ≡ w.conn) (authorize env user w)
unfolding authorize
authorize-reads env user w =
    Ensures-branch user.is_superuser _ _ w (λ _. Ensures-pure superuser_access w refl)
      (λ _. Ensures-bind _ _ w (
        unfold on_pool load_user_roles in
        Ensures-if (env.db_fails w.tick) _ _ (λ _. Ensures-err _ _)
          (λ _. Ensures-ok _ _ (Ensures-pure _ _ refl))))

pub access_of-may :
    (env : Env) (user : User) (credential : Credential) (w : World)
    → Ensures
        (λ access v. (p : Permission) → can access p ≡ may v.db user credential p)
        (access_of env user credential w)
unfolding access_of may
access_of-may env user (by_api_key key) w = Ensures-pure _ w λ p. unfold can in refl
access_of-may env user (by_session session) w = record {
  at = λ access v h p.
      can-authorize env user w h p
      ∙ ap (λ c. if user.is_superuser then valid p else user_can c.db user.id p)
          (sym ((authorize-reads env user w).at access v h));
}

pub access_of-reads :
    (env : Env) (user : User) (credential : Credential) (w : World)
    → Ensures (λ _ v. v.conn ≡ w.conn) (access_of env user credential w)
unfolding access_of
access_of-reads env user (by_api_key key) w = Ensures-pure _ w refl
access_of-reads env user (by_session session) w = authorize-reads env user w
