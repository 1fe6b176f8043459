-- ===== src/Repo/Roles/Grants.antt =====
-- What the roles grant after the statements of replaceRolePermissions.
use git_single_tenant_templa.Prelude.{
  ℕ, ◌≡◌, refl, ap, ◌∙◌, Bool, not, ◌&&◌, ◌||◌, List, [], ◌∷◌, arith, str_eq, ◌==◌, if◌then◌else◌,
  any, filter, any-sort_by,
}
use git_single_tenant_templa.Exec.{err, Conn}
use git_single_tenant_templa.Exec.Ensures.{
  Ensures, Ensures-ok, Ensures-err, Ensures-pure, Ensures-if, Ensures-map, Ensures-bind,
}
use git_single_tenant_templa.Identity.Permission.{has, text_le, slice}
use git_single_tenant_templa.Model.{
  Permission, PermissionSet, Db, unknown_permission, validation, internal,
}
use git_single_tenant_templa.Repo.Roles.Writes.{
  with_role_permissions, grant_permission, grant_permissions, clear_role_permissions,
  replace_role_permissions,
}

has-slice : (s : PermissionSet) (p : Permission) → has (slice s) p ≡ has s p
unfolding slice has
has-slice s p = any-sort_by (λ q. str_eq q p) text_le s

-- The rows that the INSERTs of replaceRolePermissions add, the last one first.
unfoldable push_grants : ℕ → List Permission → List (ℕ × Permission) → List (ℕ × Permission)
push_grants role_id [] rows = rows
push_grants role_id (p ∷ ps) rows = push_grants role_id ps ((role_id, p) ∷ rows)

any-push_grants :
    (t : (ℕ × Permission) → Bool) (role_id : ℕ) (ps : List Permission)
    (rows : List (ℕ × Permission))
    → any t (push_grants role_id ps rows) ≡ (any (λ p. t (role_id, p)) ps || any t rows)
unfolding any push_grants
any-push_grants t role_id [] rows = refl
any-push_grants t role_id (p ∷ ps) rows =
    ground (arith, any-push_grants t role_id ps ((role_id, p) ∷ rows))

Ensures-grant_permission :
    (role_id : ℕ) (p : Permission) (c : Conn)
    → Ensures
        (λ _ d. d ≡ with_role_permissions c ((role_id, p) ∷ c.db.role_permissions))
        (grant_permission role_id p c)
unfolding grant_permission
Ensures-grant_permission role_id p c =
    Ensures-if (not (has c.db.permissions p)) (err (validation (unknown_permission p)), c) _
      (λ _. Ensures-err _ c)
      (λ _.
        Ensures-if (any (λ rp. rp.0 == role_id && str_eq rp.1 p) c.db.role_permissions)
          (err internal, c) _ (λ _. Ensures-err internal c) (λ _. Ensures-ok tt _ refl))

Ensures-grant_permissions :
    (role_id : ℕ) (ps : List Permission) (c : Conn)
    → Ensures
        (λ _ d. d ≡ with_role_permissions c (push_grants role_id ps c.db.role_permissions))
        (grant_permissions role_id ps c)
unfolding grant_permissions push_grants
Ensures-grant_permissions role_id [] c = Ensures-pure tt c refl
Ensures-grant_permissions role_id (p ∷ ps) c = Ensures-bind _ _ c (
    Ensures-map _ (Ensures-grant_permission role_id p c) λ _ d h.
      Ensures-map _ (Ensures-grant_permissions role_id ps d) λ _ z k.
        k ∙ ap (λ x. with_role_permissions x (push_grants role_id ps x.db.role_permissions)) h)

-- The table role_permissions after replaceRolePermissions.
pub regranted : ℕ → List Permission → Db → List (ℕ × Permission)
regranted role_id ps db =
    push_grants role_id ps (filter (λ rp. not (rp.0 == role_id)) db.role_permissions)

pub Ensures-replace_role_permissions :
    (role_id : ℕ) (perms : PermissionSet) (c : Conn)
    → Ensures
        (λ _ d. d ≡ with_role_permissions c (regranted role_id (slice perms) c.db))
        (replace_role_permissions role_id perms c)
unfolding replace_role_permissions regranted
Ensures-replace_role_permissions role_id perms c = Ensures-bind _ _ c (
    unfold clear_role_permissions in
    Ensures-ok tt _ (Ensures-grant_permissions role_id (slice perms) _))

any-same_role :
    (b : Bool) (p : Permission) (ps : List Permission)
    → any (λ q. b && str_eq q p) ps ≡ (b && has ps p)
unfolding any has
any-same_role b p [] = ground arith
any-same_role b p (q ∷ ps) = ground (arith, any-same_role b p ps)

any-ungranted :
    (role_id i : ℕ) (p : Permission) (rows : List (ℕ × Permission))
    → any (λ rp. rp.0 == i && str_eq rp.1 p) (filter (λ rp. not (rp.0 == role_id)) rows)
      ≡ (not (role_id == i) && any (λ rp. rp.0 == i && str_eq rp.1 p) rows)
unfolding any filter
any-ungranted role_id i p [] = ground arith
any-ungranted role_id i p ((j, q) ∷ rows) = ground (arith, any-ungranted role_id i p rows)

-- The role grants what it was given, and every other role what it granted before.
pub any-regranted :
    (role_id : ℕ) (perms : PermissionSet) (db : Db) (i : ℕ) (p : Permission)
    → any (λ rp. rp.0 == i && str_eq rp.1 p) (regranted role_id (slice perms) db) ≡ (
        if role_id == i
        then has perms p
        else any (λ rp. rp.0 == i && str_eq rp.1 p) db.role_permissions)
unfolding regranted
any-regranted role_id perms db i p = ground (
  arith,
  any-push_grants (λ rp. rp.0 == i && str_eq rp.1 p) role_id (slice perms)
      (filter (λ rp. not (rp.0 == role_id)) db.role_permissions),
  any-same_role (role_id == i) p (slice perms),
  has-slice perms p,
  any-ungranted role_id i p db.role_permissions,
)
