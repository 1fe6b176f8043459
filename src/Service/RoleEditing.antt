-- ===== src/Service/RoleEditing.antt =====
-- What UpdateRole (roles_service.go) changes of what the roles grant.
use git_single_tenant_templa.Repo.Roles.Rows
use git_single_tenant_templa.Repo.Roles.Writes
use git_single_tenant_templa.Prelude.{
  ℕ, String, ◌≡◌, refl, ap, ◌∙◌, subst, true, false, not, ◌&&◌, List, [], ◌∷◌, flat_map, arith,
  str_eq, ◌==◌, if◌then◌else◌, any, filter, find?, find?-eq-some,
}
use git_single_tenant_templa.Audit.{Ensures-record_event}
use git_single_tenant_templa.Exec.{ok, err, Conn, World, Env}
use git_single_tenant_templa.Exec.Ensures.{
  Ensures, Ensures-ok, Ensures-err, Ensures-pure, Ensures-lift, Ensures-map, Ensures-found,
  Ensures-require, Ensures-bind, Ensures-in_tx,
}
use git_single_tenant_templa.Identity.Access.{can}
use git_single_tenant_templa.Identity.Access.Laws.{check_escalation_iff}
use git_single_tenant_templa.Identity.Permission.{has}
use git_single_tenant_templa.Model.{
  Permission, PermissionSet, User, RoleRow, Role, Access, not_found,
}
use git_single_tenant_templa.Repo.Roles.Grants.{Ensures-replace_role_permissions, any-regranted}
use git_single_tenant_templa.Repo.Roles.Laws.{role_grants}
use git_single_tenant_templa.Repo.Roles.Rows.{left_join, collect_roles, first_role}
use git_single_tenant_templa.Service.RoleCreation.{validate_role_input-Accepted}
use git_single_tenant_templa.Service.Roles.{update_role_tx, update_role}

-- The UPDATE passes system roles by, and leaves what the roles grant alone.
Ensures-rename_role :
    (role_id : ℕ) (name : String) (c : Conn)
    → Ensures
        (λ row d. (row.is_system ≡ false) × (d.db.role_permissions ≡ c.db.role_permissions))
        (Writes.rename_role role_id name c)
unfolding Writes.rename_role
Ensures-rename_role role_id name c =
    Ensures-found (find? (λ r. r.id == role_id && not r.is_system) c.db.roles) (err not_found, c) _
      (Ensures-err not_found c)
      λ r found. Ensures-ok _ _ (
        custom r
            (find?-eq-some (λ r. r.id == role_id && not r.is_system) (λ _. true) c.db.roles
              found).0,
        refl,
      )
  where
    custom : (r : RoleRow) → (r.id == role_id && not r.is_system) ≡ true → r.is_system ≡ false
    custom r h = ground arith

-- What UpdateRole ensures inside its transaction.
abbrev Regranted : ℕ → PermissionSet → Conn → Role → Conn → Type 0
Regranted role_id set c role d =
    (role.row.is_system ≡ false)
    × ((i : ℕ) (p : Permission)
        → role_grants d.db i p ≡ (if role_id == i then has set p else role_grants c.db i p))

update_role-Regranted :
    (role_id : ℕ) (name : String) (set : PermissionSet) (c : Conn)
    → Ensures (Regranted role_id set c) (Writes.update_role role_id name set c)
unfolding Writes.update_role
update_role-Regranted role_id name set c = Ensures-bind _ _ c (
    Ensures-map _ (Ensures-rename_role role_id name c) λ row c₁ renamed. Ensures-bind _ _ c₁ (
      Ensures-map _ (Ensures-replace_role_permissions role_id set c₁) λ _ c₂ rows.
        Ensures-pure _ c₂ (
          renamed.0,
          λ i p.
              unfold role_grants in
              ap (λ x. any (λ rp. rp.0 == i && str_eq rp.1 p) x.db.role_permissions) rows
              ∙ any-regranted role_id set c₁.db i p
              ∙ ap
                  (λ x.
                    if role_id == i then has set p else any (λ rp. rp.0 == i && str_eq rp.1 p) x)
                  renamed.1,
        )))

get_role-reads : (role_id : ℕ) (c : Conn) → Ensures (λ _ d. d ≡ c) (Rows.get_role role_id c)
unfolding Rows.get_role
get_role-reads role_id c =
    first (collect_roles (flat_map (left_join c.db) (filter (λ r. r.id == role_id) c.db.roles)))
  where
    first : (rs : List Role) → Ensures (λ _ d. d ≡ c) (first_role rs c)
    first [] = Ensures-err not_found c
    first (r ∷ rs) = Ensures-ok r c refl

update_role_tx-Regranted :
    (env : Env) (actor : User) (access : Access) (role_id : ℕ) (name : String) (set : PermissionSet)
    (c : Conn)
    → Ensures (Regranted role_id set c) (update_role_tx env actor access role_id name set c)
unfolding update_role_tx
update_role_tx-Regranted env actor access role_id name set c = Ensures-bind _ _ c (
    Ensures-map _ (get_role-reads role_id c) λ existing c₁ same. Ensures-bind _ _ c₁ (
      Ensures-require _ _ c₁ λ _. Ensures-bind _ _ c₁ (
        Ensures-lift _ c₁ λ _ _. Ensures-bind _ _ c₁ (
          Ensures-map _ (update_role-Regranted role_id name set c₁) λ role c₂ made.
            Ensures-bind _ _ c₂ (
              Ensures-record_event env _ c₂ (
                Ensures-pure role _ (
                  unfold role_grants in
                  subst (λ x. Regranted role_id set x role c₂) same made)))))))

-- When UpdateRole succeeds, the role is a custom one and grants exactly what was asked for, all of
-- it held by the caller; every other role grants what it granted before.
pub update_role-role_grants :
    (env : Env) (actor : User) (access : Access) (role_id : ℕ) (raw_name : String)
    (perms : List Permission) (w : World) (role : Role) (w' : World)
    → update_role env actor access role_id raw_name perms w ≡ (ok role, w')
    → (p : Permission)
    → (role.row.is_system ≡ false)
      × (has perms p ≡ true → can access p ≡ true)
      × ((i : ℕ)
          → role_grants w'.db i p ≡ (if role_id == i then has perms p else role_grants w.db i p))
update_role-role_grants env actor access role_id raw_name perms w role w' h p = updated.at role w' h
  where
    Updated : Role → World → Type 0
    Updated r v =
        (r.row.is_system ≡ false)
        × (has perms p ≡ true → can access p ≡ true)
        × ((i : ℕ)
            → role_grants v.db i p ≡ (if role_id == i then has perms p else role_grants w.db i p))

    updated : Ensures Updated (update_role env actor access role_id raw_name perms w)
    updated =
        unfold update_role in
        Ensures-bind _ _ w (
          Ensures-lift _ w λ x accepted. Ensures-bind _ _ w (
            Ensures-lift _ w λ _ passed.
              Ensures-in_tx env (update_role_tx env actor access role_id x.1 x.2) w (
                Ensures-map _ (update_role_tx-Regranted env actor access role_id x.1 x.2 w.conn)
                  λ r d made v same.
                    let a =
                      validate_role_input-Accepted env "placeholder" raw_name perms x.0 x.1 x.2
                        accepted p in
                    (
                      made.0,
                      (λ k. unfold can in (check_escalation_iff access x.2).0 passed p (a.0 ∙ k)),
                      λ i.
                          ap (λ y. role_grants y.db i p) same
                          ∙ made.1 i p
                          ∙ ap (λ b. if role_id == i then b else role_grants w.db i p) a.0,
                    ))))
